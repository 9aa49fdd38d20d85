-- ===== src/Repository/Laws.antt =====
-- Errors, reads, pages and deletions of the repositories.
use mathlib.Core.Option
use native.Mathlib.Nat.{div-add-mod, mod-lt}
use node_ddd_boilerplate_typ.Base.{
  Bool, List, Option, String, [], arith, false, inl, inr, length, refl, some, suc, true, zero, ℕ,
  ◌%◌, ◌*◌, ◌+◌, ◌-◌, ◌/◌, ◌<◌, ◌∙◌, ◌∷◌, ◌≡◌, ◌≤◌, ◌⊎◌,
}
use node_ddd_boilerplate_typ.Effects.{
  Call, Result, bind-state, ok, pure, reads, rethrow, rethrow-state, settle, throw, ◌>>=◌,
}
use node_ddd_boilerplate_typ.Exceptions.{exception, status_of}
use node_ddd_boilerplate_typ.Platform.{Platform}
use node_ddd_boilerplate_typ.Repository.{
  PageCount, count, create, delete_many, delete_one, execute_query, find_all, find_one, found_row,
  get_by_id, internal_error, list_with, or_one, pages, remove_all, total_pages_of, update,
}
use node_ddd_boilerplate_typ.Store.{ResourceRepo, UpdateResult, where_id, where_ids}
use node_ddd_boilerplate_typ.Users.Query.{FindOptions, ListQuery}
use node_ddd_boilerplate_typ.Value.{Date, Fields, Value, end, field, put, str}

-- An error, if there is one, is internal.
abbrev pub IsInternal : {A : Type 0} → Result A → Type 0
IsInternal (ok a) = Unit
IsInternal (throw e) = status_of e ≡ some 500

settle-IsInternal :
    ⦃p : Platform⦄ {S A : Type 0} (r : Result A) (s : S) → IsInternal (settle internal_error r s).0
unfolding exception
settle-IsInternal (ok a) s = tt
settle-IsInternal (throw e) s = refl

pub rethrow-IsInternal :
    ⦃p : Platform⦄ {S A : Type 0} (m : Call S A) (s : S) → IsInternal (rethrow m internal_error s).0
unfolding rethrow
rethrow-IsInternal m s = settle-IsInternal (m s).0 (m s).1

-- With `d` pages of `m` items and `r` items left over, or one page at least.
pages_bounds :
    (n m d r : ℕ)
    → 0 < m
    → m * d + r ≡ n + (m - 1)
    → r < m
    → (n ≤ d * m) × ((d - 1) * m < n ⊎ (d ≡ 0))
pages_bounds n m zero r pos e small = (grind arith, inr refl)
pages_bounds n m (suc d) r pos e small =
    (grind arith, inl (let f : suc d - 1 ≡ d = omega arith in rw f (omega arith)))

abbrev IsPageCount : ℕ → ℕ → PageCount → Type 0
IsPageCount n m count' =
    (c : ℕ) × (count' ≡ pages c) × (0 < c) × (n ≤ c * m) × ((c ≡ 1) ⊎ ((c - 1) * m < n))

or_one-IsPageCount :
    (n m d : ℕ) → 0 < m → n ≤ d * m → ((d - 1) * m < n ⊎ (d ≡ 0)) → IsPageCount n m (or_one d)
or_one-IsPageCount n m zero pos le lt = (1, refl, omega arith, grind arith, inl refl)
or_one-IsPageCount n m (suc d) pos le (inl lt) = (suc d, refl, omega arith, le, inr lt)
or_one-IsPageCount n m (suc d) pos le (inr e) = absurd (omega arith)

-- For a limit that is not 0, the number of pages is positive, the pages hold all the items, and
-- one page fewer does not, unless there is only one page.
pub total_pages_of-limit :
    (n l : ℕ)
    → (c : ℕ) × (total_pages_of n (some (suc l)) ≡ pages c)
      × (0 < c)
      × (n ≤ c * suc l)
      × ((c ≡ 1) ⊎ ((c - 1) * suc l < n))
unfolding total_pages_of
total_pages_of-limit n l =
    let d = (n + (suc l - 1)) / suc l in
    let (le, lt) =
      pages_bounds n (suc l) d ((n + (suc l - 1)) % suc l) (omega arith)
        (div-add-mod (n + (suc l - 1)) (suc l)) (mod-lt (n + (suc l - 1)) (omega arith)) in
    or_one-IsPageCount n (suc l) d (omega arith) le lt

module _ ⦃p : Platform⦄ {S E : Type 0} (repo : ResourceRepo S) (to_domain : Value → E)
    (to_database : E → Value) (now : Date) where
  -- Whatever the database library throws, what each method of the repository throws, if anything,
  -- has status 500.
  pub repository_errors :
      (s : S) (entity : E) (id : String) (ids : List String) (data' : Fields) (query : FindOptions)
      (page : ListQuery) (soft : Bool)
      → IsInternal (create repo to_domain to_database now entity s).0
        × IsInternal (get_by_id repo to_domain to_database now id s).0
        × IsInternal (find_one repo to_domain to_database now query s).0
        × IsInternal (find_all repo to_domain to_database now query s).0
        × IsInternal (update repo to_domain to_database now id data' s).0
        × IsInternal (list_with repo to_domain to_database now query page s).0
        × IsInternal (count repo to_domain to_database now query s).0
        × IsInternal (delete_one repo to_domain to_database now id soft s).0
        × IsInternal (delete_many repo to_domain to_database now ids soft s).0
        × IsInternal (execute_query repo to_domain to_database now id s).0
  unfolding create get_by_id find_one find_all update list_with count delete_one delete_many
      execute_query
  repository_errors s entity id ids data' query page soft = (
    rethrow-IsInternal _ s,
    rethrow-IsInternal _ s,
    rethrow-IsInternal _ s,
    rethrow-IsInternal _ s,
    rethrow-IsInternal _ s,
    rethrow-IsInternal _ s,
    rethrow-IsInternal _ s,
    rethrow-IsInternal _ s,
    rethrow-IsInternal _ s,
    rethrow-IsInternal _ s,
  )

  -- `getById`, `findOne`, `findAll`, `list` and `count` leave the database as it is, whether they
  -- return or throw.
  pub repository_reads :
      (s : S) (id : String) (query : FindOptions) (page : ListQuery)
      → ((get_by_id repo to_domain to_database now id s).1 ≡ s)
        × ((find_one repo to_domain to_database now query s).1 ≡ s)
        × ((find_all repo to_domain to_database now query s).1 ≡ s)
        × ((list_with repo to_domain to_database now query page s).1 ≡ s)
        × ((count repo to_domain to_database now query s).1 ≡ s)
  unfolding get_by_id find_one find_all list_with count rethrow
  repository_reads s id query page =
      (ground arith, ground arith, ground arith, ground arith, ground arith)

  -- If the database takes the given values, stamped with the time of the call, and then finds a
  -- row, an update is that one write and returns the entity of that row, or none if it is null.
  pub update_returns :
      (id : String) (data' : Fields) (s t : S) (result : Option.Option UpdateResult) (row : Value)
      → repo.update (id ∷ []) (put "updatedAt" (str (p.to_iso now)) data') s ≡ (ok result, t)
      → repo.find_one (where_id id) t ≡ ok row
      → update repo to_domain to_database now id data' s
        ≡ (ok (Option.map to_domain (found_row row)), t)
  unfolding update rethrow
  update_returns id data' s t result row written read = ground arith

  -- Whatever the database answers, also where it throws, an update leaves what one write leaves:
  -- that of the given values, stamped with the time of the call, at the given identifier.
  pub update_writes :
      (id : String) (data' : Fields) (s : S)
      → (update repo to_domain to_database now id data' s).1
        ≡ (repo.update (id ∷ []) (put "updatedAt" (str (p.to_iso now)) data') s).1
  unfolding update
  update_writes id data' s =
      let write = repo.update (id ∷ []) (put "updatedAt" (str (p.to_iso now)) data') in
      let read = (λ (result : Option.Option UpdateResult).
        reads (repo.find_one (where_id id))
        >>= (λ row. pure (Option.map to_domain (found_row row)))) in
      rethrow-state internal_error (write >>= read) s
      ∙ bind-state write read s (λ a t.
        bind-state (reads (repo.find_one (where_id id)))
          (λ row. pure (Option.map to_domain (found_row row))) t (λ b u. refl))

  -- If the database reports of the update that no row was affected, soft deletion still answers
  -- true: 0 is taken for a missing report.
  pub delete_one_missing :
      (id : String) (s t : S)
      → repo.update (id ∷ []) (field "deletedAt" (str (p.to_iso now)) end) s
        ≡ (ok (some (record { affected = some 0 })), t)
      → delete_one repo to_domain to_database now id true s ≡ (ok true, t)
  unfolding delete_one rethrow
  delete_one_missing id s t e = ground arith

  remove_all_counts :
      (rows : List Value) (counter : ℕ) (s : S)
      → ((row : Value) (t : S) → (v : Value) × (u : S) × (repo.remove row t ≡ (ok v, u)))
      → (remove_all repo to_domain to_database now rows counter s).0 ≡ ok (length rows + counter)
  unfolding remove_all
  remove_all_counts [] counter s removes = ground arith
  remove_all_counts (row ∷ rows) counter s removes =
      let (v, u, e) = removes row s in
      ground (arith, e, remove_all_counts rows (suc counter) u removes)

  -- If the rows of the identifiers are found and no removal fails, hard deletion returns the
  -- number of the rows found.
  pub delete_many_counts :
      (ids : List String) (rows : List Value) (s : S)
      → repo.find (where_ids ids) s ≡ ok rows
      → ((row : Value) (t : S) → (v : Value) × (u : S) × (repo.remove row t ≡ (ok v, u)))
      → (delete_many repo to_domain to_database now ids false s).0 ≡ ok (some (length rows))
  unfolding delete_many rethrow
  delete_many_counts ids rows s found removes = ground (arith, remove_all_counts rows 0 s removes)
