-- ===== src/Categories/CachedLaws.antt =====
-- What is put into the cache is read back.
use lakira_backend.Base.{ℕ, ◌≡◌, refl, some, List, [], ◌∷◌, map, inl, inr, arith, Option-cases}
use lakira_backend.Categories.Snapshots.{
  CachePorts, ListedCategory, Listing, snapshot_of, to_cache, rebuild, rebuild_all, from_cache,
}

module _ (ports : CachePorts) where
  -- A date that is printed is read back.
  abbrev pub AreDatesRead : Type 0
  AreDatesRead = (t : ℕ) → ports.parse_date (ports.to_iso t) ≡ some t

  rebuild-snapshot_of :
      AreDatesRead → (c : ListedCategory) → rebuild ports (snapshot_of ports c) ≡ some c
  unfolding rebuild
  rebuild-snapshot_of read c = elim (Option-cases c.deleted_at) [
    | inl p ↦ ground (arith, read c.created_at, read c.updated_at)
    | inr (t, p) ↦ ground (arith, read c.created_at, read c.updated_at, read t)
  ]

  rebuild_all-map :
      AreDatesRead
      → (cs : List ListedCategory) → rebuild_all ports (map (snapshot_of ports) cs) ≡ some cs
  unfolding rebuild_all
  rebuild_all-map read [] = refl
  rebuild_all-map read (c ∷ cs) =
      ground (arith, rebuild-snapshot_of read c, rebuild_all-map read cs)

  -- A page that is cached is read back as it was.
  pub from_cache-to_cache :
      AreDatesRead → (page : Listing) → from_cache ports (to_cache ports page) ≡ some page
  unfolding from_cache to_cache
  from_cache-to_cache read page = ground (arith, rebuild_all-map read page.items)
