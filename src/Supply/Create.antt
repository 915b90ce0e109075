-- ===== src/Supply/Create.antt =====
-- What `slab_create` adds to an arena: a slab with all blocks free.
use nvalloc.Prelude.{
  ℕ, ◌+◌, ◌*◌, ◌%◌, ◌^◌, ◌≤◌, ◌<◌, ◌≡◌, ◌≢◌, refl, true, false, some, List, [], ◌∷◌, ◌++◌, arith,
  get_elem?, ltb, ◌&&◌, if◌then◌else◌, update, update_self, update_other, le→leb, lt→ltb, ap, ◌∙◌,
}
use nvalloc.Machine.{u64_mod}
use nvalloc.SizeClass.{SizeClass}
use nvalloc.Slab.{VSlab, Bin, vslab_init, slab_init}
use nvalloc.Slab.Inv.{IsVSlab, IsVSlab-same, vslab_init-IsVSlab}
use nvalloc.Slab.Touch.{IsLru}
use nvalloc.Supply.{bin_insert, Slabs, Fresh, slab_create, init_slab, clear_dmeta}

-- what creating a slab of the class `sc` at `slab` does
pub record Created (classes : List SizeClass) (meta_size : ℕ) (s : Slabs) (new : Fresh)
    (sc_idx slab : ℕ) (sc : SizeClass) (s' : Slabs) : Type 0 where
  pub result : slab_create classes meta_size s new sc_idx ≡ some (new.vslab, s')
  pub is : IsVSlab (s'.vslabs new.vslab)
  pub class : (s'.vslabs new.vslab).sc ≡ sc
  pub none_used : (s'.vslabs new.vslab).bitmap_header.nbits ≡ 0
  pub at : (s'.vslabs new.vslab).slab ≡ slab
  pub lru_is : IsLru s'.lru (s'.vslabs new.vslab)
  pub oldest_last : s'.lru.lru_vslabs ≡ s.lru.lru_vslabs ++ new.vslab ∷ []
  pub in_bin : (s'.bins sc_idx).vslabs ≡ new.vslab ∷ (s.bins sc_idx).vslabs
  pub same_bins : (i : ℕ) → sc_idx ≢ i → s'.bins i ≡ s.bins i
  pub others : (a : ℕ) → new.vslab ≢ a → s'.vslabs a ≡ s.vslabs a
  pub same_caches : s'.caches ≡ s.caches
  pub unmarked :
      (byte i : ℕ)
      → slab + sc.moffset ≤ byte
      → byte < slab + sc.roffset
      → s'.marks.bit byte i ≡ false

-- When the allocations succeed and the class is laid out, `slab_create` returns a new slab of the class with
-- all blocks free and no mark set, which is the first of its bin and the last of the arena's list, and
-- no other slab or bin changes.
pub slab_create-Created :
    (classes : List SizeClass) (meta_size : ℕ) (s : Slabs) (new : Fresh) (sc_idx slab : ℕ)
    (sc : SizeClass)
    → new.slab ≡ some slab
    → get_elem? classes sc_idx ≡ some sc
    → sc.nbits ≤ sc.n_bitmaps * 64
    → sc.nbits < 2 ^ 16
    → 0 < sc.bitsize
    → s.lru.morphing_len ≤ s.lru.lru_len
    → s.lru.lru_len + 1 < 2 ^ 64
    → (s' : Slabs) × Created classes meta_size s new sc_idx slab sc s'
unfolding slab_create init_slab clear_dmeta vslab_init slab_init
slab_create-Created classes meta_size s new sc_idx slab sc pages found room small size bounded
      fits =
    let v : VSlab = record new.junk { self = new.vslab; slab = slab } in
    let made : Slabs = record s { vslabs = update s.vslabs new.vslab v } in
    let inited = init_slab made new.vslab new.dmeta sc in
    let last : VSlab = record (vslab_init v new.dmeta sc) { in_lru = true } in
    let s' : Slabs = record inited {
      vslabs = update inited.vslabs new.vslab (record (inited.vslabs new.vslab) { in_lru = true });
      lru = record s.lru {
        lru_vslabs = s.lru.lru_vslabs ++ new.vslab ∷ [];
        lru_len = (s.lru.lru_len + 1) % u64_mod;
        morphing_len = (s.lru.morphing_len + 1) % u64_mod;
      };
      bins = update s.bins sc_idx (bin_insert (s.bins sc_idx) new.vslab);
    } in
    let here : made.vslabs new.vslab ≡ v = update_self s.vslabs new.vslab v in
    let there : inited.vslabs new.vslab ≡ vslab_init v new.dmeta sc =
      update_self made.vslabs new.vslab _ ∙ ap (λ u. vslab_init u new.dmeta sc) here in
    let at_last : s'.vslabs new.vslab ≡ last =
      update_self inited.vslabs new.vslab _
      ∙ ap (λ (u : VSlab). record u { in_lru = true }) there in
    (
      s',
      record {
        result = rw (pages, found) refl;
        is =
            IsVSlab-same (vslab_init v new.dmeta sc) (s'.vslabs new.vslab) (ap VSlab.bitmap at_last)
              (ap VSlab.bitmap_header at_last) (ap VSlab.sc at_last)
              (vslab_init-IsVSlab v new.dmeta sc room small size);
        class = ap VSlab.sc at_last;
        none_used = ap (λ (u : VSlab). u.bitmap_header.nbits) at_last;
        at = ap VSlab.slab at_last;
        lru_is = rw at_last (record {
          fits = omega (arith, fits);
          low = ground (arith, bounded, fits);
          bounded = omega (arith, bounded, fits);
          member = λ e. refl;
          others = λ e. ground (arith, bounded, fits);
        });
        oldest_last = refl;
        in_bin = ap Bin.vslabs (update_self s.bins sc_idx _);
        same_bins = λ i ne. update_other s.bins sc_idx _ i ne;
        others = λ a ne.
            update_other inited.vslabs new.vslab _ a ne
            ∙ update_other made.vslabs new.vslab _ a ne
            ∙ update_other s.vslabs new.vslab v a ne;
        same_caches = refl;
        unmarked = λ byte i from to. rw here (
            ap (λ b. if b && ltb byte (slab + sc.roffset) then false else s.marks.bit byte i)
              (le→leb (slab + sc.moffset) byte from)
            ∙ ap (λ b. if b then false else s.marks.bit byte i)
                (lt→ltb byte (slab + sc.roffset) to));
      },
    )
