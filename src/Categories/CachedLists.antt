-- ===== src/Categories/CachedLists.antt =====
-- What a list through the cache answers, whoever lists, writes and invalidates meanwhile.
use lakira_backend.Base.{
  ℕ, ◌≡◌, refl, sym, ap, ◌∙◌, subst, ◌==◌, all, Bool, true, false, Option, none, some, List, arith,
  if◌then◌else◌,
}
use lakira_backend.Text.{Text}
use lakira_backend.Config.Spreading.{>>=-eq-some}
use lakira_backend.Cache.ListKeys.{categories_cursor_cache_key}
use lakira_backend.Cache.PlainIds.{IsPlain}
use lakira_backend.Cache.Tenants.{build_cursor_cache_key_isolates}
use lakira_backend.Categories.Listing.{ListQuery}
use lakira_backend.Categories.Snapshots.{CachePorts, Listing, Entries, cached_at, store_page}
use lakira_backend.Categories.Cached.{list_key, answer_of, cached_list}
use lakira_backend.Categories.ListedRows.{inner_list_user}
use lakira_backend.Categories.CachedLaws.{AreDatesRead}
use lakira_backend.Categories.CacheHistory.{
  Db, IsAmong, History, stored, IsGiven, AreGiven, listing, key_of_list, History-AreGiven,
  IsGiven-cached_at,
}

module _ (ports : CachePorts) where
  same_tenant :
      (asked query : ListQuery) (after after' : Option Text) (key : Text)
      → ((n : ℕ) → IsPlain (ports.id_text n))
      → ((n m : ℕ) → ports.id_text n ≡ ports.id_text m → n ≡ m)
      → key_of_list ports asked after ≡ some key
      → key_of_list ports query after' ≡ some key
      → (asked.user_id ≡ query.user_id) × (asked.organization_id ≡ query.organization_id)
  unfolding list_key categories_cursor_cache_key
  same_tenant asked query after after' key plain apart e e' =
      let (users, organizations, _) =
        build_cursor_cache_key_isolates _ _ (some (ports.id_text asked.user_id))
          (some (ports.id_text query.user_id)) (ports.id_text asked.organization_id)
          (ports.id_text query.organization_id) _ _ key (plain asked.user_id) (plain query.user_id)
          (plain asked.organization_id) (plain query.organization_id) refl e e' in
      (
        apart asked.user_id query.user_id (ground arith),
        apart asked.organization_id query.organization_id organizations,
      )

  abbrev answers : Option Listing → Listing → (kept entries : Entries) → Listing × Entries
  answers = answer_of ports

  -- A page is given, and the history goes on.
  abbrev IsAnswered : List Db → Text → Listing → Entries → Type 0
  IsAnswered dbs key page es = IsGiven ports dbs key page × History ports dbs es

  answers-IsAnswered :
      (dbs : List Db) (key : Text) (o : Option Listing) (given page : Listing)
      (kept es es' : Entries)
      → IsAnswered dbs key given kept
      → History ports dbs es
      → ((hit : Listing) → o ≡ some hit → IsGiven ports dbs key hit)
      → ◌≡◌ {A = Listing × Entries} (answers o given kept es) (page, es')
      → IsAnswered dbs key page es'
  answers-IsAnswered dbs key none given page kept es es' g h hits e =
      subst (λ (x : Listing × Entries). IsAnswered dbs key x.0 x.1) e g
  answers-IsAnswered dbs key (some hit) given page kept es es' g h hits e =
      subst (λ (x : Listing × Entries). IsAnswered dbs key x.0 x.1) e (hits hit refl, h)

  kept_history :
      (enabled_after : Bool) (dbs : List Db) (key : Text) (query : ListQuery) (after : Option Text)
      (db : Db) (es : Entries)
      → History ports dbs es
      → IsAmong db dbs
      → key_of_list ports query after ≡ some key
      → History ports dbs
          (if enabled_after then store_page ports key (listing ports query after db) es else es)
  kept_history true dbs key query after db es h among e = stored h query after db key among e
  kept_history false dbs key query after db es h among e = h

  hit-IsGiven :
      (enabled : Bool) (dbs : List Db) (key : Text) (es : Entries) (hit : Listing)
      → AreGiven ports dbs es
      → (if enabled then cached_at ports key es else none) ≡ some hit
      → IsGiven ports dbs key hit
  hit-IsGiven true dbs key es hit h e = IsGiven-cached_at ports dbs key es hit h e
  hit-IsGiven false dbs key es hit h e = cc

  -- What a list answers in some history, where dates are read back as they were printed and ids
  -- are apart and plain, was given by the repository for the same user and organization, and for a
  -- query with the same key, from that database or another of the history; each of its categories
  -- is that user's, and the history goes on.
  pub cached_list_isolates :
      (enabled enabled_after : Bool) (dbs : List Db) (query : ListQuery) (after : Option Text)
      (db : Db) (es es' : Entries) (page : Listing)
      → AreDatesRead ports
      → ((n : ℕ) → IsPlain (ports.id_text n))
      → ((n m : ℕ) → ports.id_text n ≡ ports.id_text m → n ≡ m)
      → History ports dbs es
      → IsAmong db dbs
      → cached_list ports enabled enabled_after query after db es ≡ some (page, es')
      → (asked : ListQuery) × (after' : Option Text) × (db' : Db) × IsAmong db' dbs
        × (asked.user_id ≡ query.user_id)
        × (asked.organization_id ≡ query.organization_id)
        × (key_of_list ports asked after' ≡ key_of_list ports query after)
        × (page ≡ listing ports asked after' db')
        × (all (λ c. c.user_id == query.user_id) page.items ≡ true)
        × History ports dbs es'
  unfolding cached_list
  cached_list_isolates enabled enabled_after dbs query after db es es' page read plain apart h among
        e =
      let given = listing ports query after db in
      let (key, p, q) =
        >>=-eq-some (key_of_list ports query after)
          (λ (key : Text). some (
            answers (if enabled then cached_at ports key es else none) given
              (if enabled_after then store_page ports key given es else es) es))
          (page, es') e in
      let own : IsGiven ports dbs key given = record {
        asked = query;
        after = after;
        db = db;
        among = among;
        same_key = p;
        same = refl;
      } in
      let (g, later) =
        answers-IsAnswered dbs key (if enabled then cached_at ports key es else none) given page
          (if enabled_after then store_page ports key given es else es) es es'
          (own, kept_history enabled_after dbs key query after db es h among p) h
          (λ hit found. hit-IsGiven enabled dbs key es hit (History-AreGiven ports read h) found)
          (some_same q) in
      let (user, organization) =
        same_tenant g.asked query g.after after key plain apart g.same_key p in
      let owned : all (λ c. c.user_id == query.user_id) page.items ≡ true =
        ap (λ (n : ℕ). all (λ c. c.user_id == n) page.items) (sym user)
        ∙ ap (λ (x : Listing). all (λ c. c.user_id == g.asked.user_id) x.items) g.same
        ∙ inner_list_user ports g.asked g.after g.db in
      (
        g.asked,
        g.after,
        g.db,
        g.among,
        user,
        organization,
        g.same_key ∙ sym p,
        g.same,
        owned,
        later,
      )
    where
      some_same : {A : Type 0} {a b : A} → some a ≡ some b → a ≡ b
      some_same e = cc
