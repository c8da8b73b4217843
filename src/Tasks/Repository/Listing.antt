-- ===== src/Tasks/Repository/Listing.antt =====
-- What `list` and `count` of app/services/task_repository.py return: isolation of owners and
-- tenants, pages, totals.
use ai_agent_task_assistant.Common.{
  ℕ, ◌+◌, ◌≤◌, String, ◌≡◌, refl, Bool, true, ◌&&◌, Option, none, List, [], ◌∷◌, ◌++◌, values,
  length, keep_if, count_if, All, arith, take-drop-append, drop-add, All-take, All-drop,
  keep_if-All, keep_if-keep_if, length-keep_if, length-take-le, take_all, count_if-le-length,
}
use ai_agent_task_assistant.Tasks.Model.{TaskStatus, Task}
use ai_agent_task_assistant.Tasks.Repository.{
  Repo, insert_sorted, newest_first, fits_text, fits_status, selected, list, count_limit, count,
}

module _ (p : Task → Bool) where
  count_if-insert_sorted :
      (t : Task) (us : List Task) → count_if p (insert_sorted t us) ≡ count_if p (t ∷ us)
  unfolding insert_sorted
  count_if-insert_sorted t [] = refl
  count_if-insert_sorted t (u ∷ us) = ground (arith, count_if-insert_sorted t us)

  count_if-newest_first : (ts : List Task) → count_if p (newest_first ts) ≡ count_if p ts
  unfolding newest_first
  count_if-newest_first [] = refl
  count_if-newest_first (t ∷ ts) =
      ground (arith, count_if-insert_sorted t (newest_first ts), count_if-newest_first ts)

module _ (repo : Repo) (owner_id tenant_id : Option String) where
  -- the tasks that a caller asks for
  abbrev pub fits : Option TaskStatus → Task → Bool
  fits status t =
      fits_text owner_id t.owner_id
      && (fits_text tenant_id t.tenant_id && fits_status status t.status)

  selected_lem :
      (status : Option TaskStatus)
      → selected repo owner_id tenant_id status ≡ keep_if (fits status) (newest_first (values repo))
  unfolding selected
  selected_lem status = rw (keep_if-keep_if, keep_if-keep_if) refl

  -- A listing holds only tasks of the owner, the tenant and the status that are asked for, where
  -- they are, and at most `limit` of them.
  pub list-All :
      (limit offset : ℕ) (status : Option TaskStatus)
      → All (λ t. fits status t ≡ true) (list repo limit offset owner_id tenant_id status)
        × (length (list repo limit offset owner_id tenant_id status) ≤ limit)
  unfolding list
  list-All limit offset status = (
    rw (selected_lem, list)
        (All-take _ limit _
          (All-drop _ offset _ (keep_if-All (fits status) (newest_first (values repo))))),
    length-take-le limit _,
  )

  -- A page and the page behind it are one larger page: no task is left out between them or shown
  -- twice.
  pub list-append :
      (a b offset : ℕ) (status : Option TaskStatus)
      → list repo a offset owner_id tenant_id status
          ++ list repo b (offset + a) owner_id tenant_id status
        ≡ list repo (a + b) offset owner_id tenant_id status
  unfolding list
  list-append a b offset status = rw (drop-add offset a) (take-drop-append a b _)

  -- In a repository of at most a million tasks the total is the number of the tasks of that owner
  -- and tenant.
  pub count_lem :
      length (values repo) ≤ count_limit
      → count repo owner_id tenant_id ≡ count_if (fits none) (values repo)
  unfolding count list
  count_lem h =
      let same : length (selected repo owner_id tenant_id none)
          ≡ count_if (fits none) (values repo) =
        rw (selected_lem none, length-keep_if) (count_if-newest_first (fits none) (values repo)) in
      rw
        (take_all count_limit (selected repo owner_id tenant_id none)
          (omega (arith, same, h, count_if-le-length (fits none) (values repo))))
        same
