-- ===== src/Categories/CacheHistory.antt =====
-- What the cache of category lists holds, whoever lists, writes and invalidates.
use lakira_backend.Base.{
  ◌≡◌, sym, ap, ◌∙◌, subst, ◌⊎◌, Bool, Option, none, some, List, [], ◌∷◌, inl, inr, arith,
  if◌then◌else◌, Bool-cases,
}
use lakira_backend.Text.{Text, text_eq, text_eq_sound}
use lakira_backend.Store.{Metric, MetricCategory}
use lakira_backend.Config.Spreading.{>>=-eq-some}
use lakira_backend.Categories.Listing.{ListQuery}
use lakira_backend.Categories.Snapshots.{
  CachePorts, Listing, CachedValue, Entries, get_entry, set_entry, drop_entries, from_cache,
  cached_at, store_page,
}
use lakira_backend.Categories.Cached.{inner_list, list_key}
use lakira_backend.Categories.CachedLaws.{AreDatesRead, from_cache-to_cache}

-- What the database holds for a listing.
abbrev pub Db : Type 0
Db = List Metric × List MetricCategory

abbrev pub IsAmong : Db → List Db → Type 0
IsAmong db [] = ⊥
IsAmong db (d ∷ dbs) = (db ≡ d) ⊎ IsAmong db dbs

-- The histories of the cache: the databases there have been, the latest first, and the entries. A
-- page may be stored that was read from any of them, whatever was written or dropped meanwhile;
-- values that are no page may appear, and entries may go at any time.
module _ (ports : CachePorts) where
  abbrev pub listing : ListQuery → Option Text → Db → Listing
  listing = inner_list ports

  abbrev pub key_of_list : ListQuery → Option Text → Option Text
  key_of_list = list_key ports

  pub data History : List Db → Entries → Type 0 where
    started : (db : Db) → History (db ∷ []) []
    written : {dbs : List Db} {es : Entries} → History dbs es → (db : Db) → History (db ∷ dbs) es
    stored :
        {dbs : List Db} {es : Entries}
        → History dbs es
        → (query : ListQuery) (after : Option Text) (db : Db) (key : Text) → IsAmong db dbs
        → key_of_list query after ≡ some key
        → History dbs (store_page ports key (listing query after db) es)
    spoiled :
        {dbs : List Db} {es : Entries}
        → History dbs es
        → (key : Text) (value : CachedValue) → from_cache ports value ≡ none
        → History dbs (set_entry key value es)
    dropped :
        {dbs : List Db} {es : Entries}
        → History dbs es
        → (gone : Text → Bool) → History dbs (drop_entries gone es)

  -- A page that the repository gave for that key, from one of the databases.
  pub record IsGiven (dbs : List Db) (key : Text) (page : Listing) : Type 0 where
    pub asked : ListQuery
    pub after : Option Text
    pub db : Db
    pub among : IsAmong db dbs
    pub same_key : key_of_list asked after ≡ some key
    pub same : page ≡ listing asked after db

  abbrev pub AreGiven : List Db → Entries → Type 0
  AreGiven dbs [] = Unit
  AreGiven dbs ((key, value) ∷ es) =
      ((page : Listing) → from_cache ports value ≡ some page → IsGiven dbs key page)
      × AreGiven dbs es

  IsGiven-later :
      (dbs : List Db) (db : Db) (key : Text) (page : Listing)
      → IsGiven dbs key page
      → IsGiven (db ∷ dbs) key page
  IsGiven-later dbs db key page g = record {
    asked = g.asked;
    after = g.after;
    db = g.db;
    among = inr g.among;
    same_key = g.same_key;
    same = g.same;
  }

  all_given_later :
      (dbs : List Db) (db : Db) (es : Entries) → AreGiven dbs es → AreGiven (db ∷ dbs) es
  all_given_later dbs db [] h = tt
  all_given_later dbs db ((key, value) ∷ es) (g, h) =
      (λ page e. IsGiven-later dbs db key page (g page e), all_given_later dbs db es h)

  drop_entries-AreGiven :
      (dbs : List Db) (gone : Text → Bool) (es : Entries)
      → AreGiven dbs es
      → AreGiven dbs (drop_entries gone es)
  unfolding drop_entries
  drop_entries-AreGiven dbs gone [] h = tt
  drop_entries-AreGiven dbs gone ((key, value) ∷ es) (g, h) = elim (Bool-cases (gone key)) [
    | inl p ↦
        subst
          (λ b.
            AreGiven dbs (if b then drop_entries gone es else (key, value) ∷ drop_entries gone es))
          (sym p) (drop_entries-AreGiven dbs gone es h)
    | inr p ↦
        subst
          (λ b.
            AreGiven dbs (if b then drop_entries gone es else (key, value) ∷ drop_entries gone es))
          (sym p) (g, drop_entries-AreGiven dbs gone es h)
  ]

  pub History-AreGiven :
      {dbs : List Db} {es : Entries} → AreDatesRead ports → History dbs es → AreGiven dbs es
  unfolding store_page set_entry
  History-AreGiven read (started db) = tt
  History-AreGiven read (written {dbs} {es} h db) =
      all_given_later dbs db es (History-AreGiven read h)
  History-AreGiven read (stored {dbs} {es} h query after db key among e) = (
    λ page found.
        let back = from_cache-to_cache ports read (listing query after db) in
        record { asked = query; after = after; db = db; among = among; same_key = e; same = cc },
    History-AreGiven read h,
  )
  History-AreGiven read (spoiled {dbs} {es} h key value e) =
      (λ page found. absurd cc, History-AreGiven read h)
  History-AreGiven read (dropped {dbs} {es} h gone) =
      drop_entries-AreGiven dbs gone es (History-AreGiven read h)

  IsGiven-get_entry :
      (dbs : List Db) (key : Text) (es : Entries) (value : CachedValue) (page : Listing)
      → AreGiven dbs es
      → get_entry key es ≡ some value
      → from_cache ports value ≡ some page
      → IsGiven dbs key page
  unfolding get_entry
  IsGiven-get_entry dbs key [] value page h e f = cc
  IsGiven-get_entry dbs key ((k, v) ∷ es) value page (g, h) e f =
      elim (Bool-cases (text_eq k key)) [
        | inl p ↦
            let same : k ≡ key = text_eq_sound k key p in
            let held : v ≡ value = ground arith in
            subst (λ (x : Text). IsGiven dbs x page) same
              (g page (ap (λ (x : CachedValue). from_cache ports x) held ∙ f))
        | inr p ↦ IsGiven-get_entry dbs key es value page h (ground arith) f
      ]

  pub IsGiven-cached_at :
      (dbs : List Db) (key : Text) (es : Entries) (page : Listing)
      → AreGiven dbs es
      → cached_at ports key es ≡ some page
      → IsGiven dbs key page
  IsGiven-cached_at dbs key es page h e =
      let (value, found, read) = >>=-eq-some (get_entry key es) (from_cache ports) page e in
      IsGiven-get_entry dbs key es value page h found read
