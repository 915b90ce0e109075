-- ===== src/Log/Layout.antt =====
-- Where the items of a log stand: the slots of a chunk, and the bits of its volatile bitmap.
use nvalloc.Prelude.{
  ℕ, ◌*◌, ◌/◌, ◌%◌, ◌≤◌, ◌<◌, ◌≡◌, refl, ap, ◌∙◌, Bool, true, false, some, [], arith, length,
  get_or, set, length-set, if◌then◌else◌, ltb, lt→ltb,
}
use nvalloc.Word.{word_or, word_and, word_not, shift_one, IsWord}
use nvalloc.Word.Laws.{word_or-shift_one, word_and-shift_one}
use nvalloc.Bitmap.{Bitmap}
use nvalloc.Bitmap.View.{bits, AreWords, IsWord-get_or, AreWords-set, bits-set}
use nvalloc.Interleave.{count_to_index}
use nvalloc.Log.{
  VlChunk, n_items_per_lchunk, set_bitmap, ptr2lchunk, ptr2lindex, item_addr, lchunk_size,
}

-- A chunk takes exactly the items 0 to 99: the slot of the next one would lie behind its end.
pub count_to_index-capacity :
    (count : ℕ) → count ≤ 100 → ltb (count_to_index count) n_items_per_lchunk ≡ ltb count 100
unfolding count_to_index
count_to_index-capacity count h = ground arith

-- The address of an item leads back to its chunk and index.
pub ptr2lchunk-item_addr :
    (q index : ℕ)
    → index < n_items_per_lchunk
    → (ptr2lchunk (item_addr (q * lchunk_size) index) ≡ q * lchunk_size)
      × (ptr2lindex (item_addr (q * lchunk_size) index) (q * lchunk_size) ≡ index)
unfolding ptr2lchunk ptr2lindex
ptr2lchunk-item_addr q index h = omega arith

pub record IsBitmap (bm : Bitmap) : Type 0 where
  pub words : AreWords bm
  pub two : length bm ≡ 2

-- what `set_bitmap` returns
pub record Marked (vl : VlChunk) (index : ℕ) (on : Bool) (vl' : VlChunk) : Type 0 where
  pub result : set_bitmap vl index on ≡ some vl'
  pub bit : bits vl'.bitmap ≡ set (bits vl.bitmap) index on
  pub shape : IsBitmap vl'.bitmap
  pub count : vl'.count ≡ vl.count
  pub id : vl'.id ≡ vl.id
  pub pre : vl'.pre_lchunk ≡ vl.pre_lchunk

module _ (vl : VlChunk) (index : ℕ) (on : Bool) (is : IsBitmap vl.bitmap)
    (lt : index < n_items_per_lchunk) where
  inside : index / 64 < length vl.bitmap
  inside = omega (arith, is.two)

  word : IsWord (get_or vl.bitmap (index / 64) [])
  word = IsWord-get_or vl.bitmap (index / 64) is.words inside

  new_word :
      (on : Bool)
      → (if on
          then word_or (get_or vl.bitmap (index / 64) []) (shift_one (index % 64))
          else word_and (get_or vl.bitmap (index / 64) []) (word_not (shift_one (index % 64))))
        ≡ set (get_or vl.bitmap (index / 64) []) (index % 64) on
  new_word true = word_or-shift_one (get_or vl.bitmap (index / 64) []) (index % 64) word
  new_word false = word_and-shift_one (get_or vl.bitmap (index / 64) []) (index % 64) word

  -- `set_bitmap` changes the one bit of the index, and nothing else of the chunk.
  pub set_bitmap-Marked : (vl' : VlChunk) × Marked vl index on vl'
  unfolding set_bitmap
  set_bitmap-Marked = (
    record vl {
      bitmap = set vl.bitmap (index / 64) (set (get_or vl.bitmap (index / 64) []) (index % 64) on);
    },
    record {
      result = rw (lt→ltb index n_items_per_lchunk lt, new_word on);
      bit =
          bits-set vl.bitmap (index / 64) (index % 64) on is.words inside (omega arith)
          ∙ ap (λ k. set (bits vl.bitmap) k on) (omega arith);
      shape = record {
        words =
            AreWords-set vl.bitmap (index / 64) _ is.words
              (length-set (get_or vl.bitmap (index / 64) []) (index % 64) on ∙ word);
        two = length-set vl.bitmap (index / 64) _ ∙ is.two;
      };
      count = refl;
      id = refl;
      pre = refl;
    },
  )
