-- ===== src/Kernel/Scheduler/Submit.antt =====
-- What `submit` admits.
use pharae.Base.{
  String, true, false, ◌||◌, none, some, List, [], ◌∷◌, select, is_empty, length, arith, ◌≡◌, refl,
  sym, ◌∙◌, ◌==◌, eq_iff, eq_refl, Option-cases, Bool-cases, inl, inr, ◌⊎◌, In, All, All-In, ok,
  err, elem, elem_iff, In-select,
}
use pharae.Base.Dict.{Dict, lookup, has_key, lookup-insert, has_key-insert}
use pharae.Schemas.{Task, task_ids}
use pharae.Kernel.Scheduler.Graph.{check_acyclic}
use pharae.Kernel.Scheduler.{
  Scheduler, distinct, first_unknown, check_dependencies, store, submit, unknown_dependency,
}

-- Every dependency of a stored task is stored.
abbrev pub IsClosed : Scheduler → Type 0
IsClosed s =
    (id : String) (t : Task)
    → lookup id s.tasks ≡ some t
    → All (λ dep. has_key dep s.tasks ≡ true) t.depends_on

elem_again :
    (k x : String) (xs : List String) → elem x xs ≡ true → elem k xs ≡ (x == k || elem k xs)
elem_again k x xs again = elim (Bool-cases (x == k)) [
  | inl same ↦ rw (← (eq_iff x k).0 same) (rw (again, eq_refl x))
  | inr other ↦ rw other
]

elem-distinct : (k : String) (xs : List String) → elem k (distinct xs) ≡ elem k xs
unfolding elem distinct
elem-distinct k [] = refl
elem-distinct k (x ∷ xs) = elim (Bool-cases (elem x xs)) [
  | inl again ↦ rw again (elem-distinct k xs ∙ elem_again k x xs again)
  | inr new ↦ rw new (ground (arith, elem-distinct k xs))
]

-- A dependency that passes the check is incoming or known.
first_unknown-none :
    (incoming : List String) (known : Dict Task) (deps : List String)
    → first_unknown incoming known deps ≡ none
    → All (λ dep. (elem dep incoming || has_key dep known) ≡ true) deps
unfolding first_unknown
first_unknown-none incoming known [] h = tt
first_unknown-none incoming known (d ∷ ds) h =
    elim (Bool-cases (elem d incoming || has_key d known)) [
      | inl fine ↦ (fine, first_unknown-none incoming known ds (rw fine at h))
      | inr bad ↦ let e : some d ≡ none = rw bad at h in cc
    ]

check_dependencies-ok :
    (incoming : List String) (known : Dict Task) (ts : List Task)
    → check_dependencies incoming known ts ≡ ok tt
    → All (λ t. All (λ dep. (elem dep incoming || has_key dep known) ≡ true) t.depends_on) ts
unfolding check_dependencies
check_dependencies-ok incoming known [] h = tt
check_dependencies-ok incoming known (t ∷ ts) h =
    elim (Option-cases (first_unknown incoming known t.depends_on)) [
      | inl fine ↦ (
        first_unknown-none incoming known t.depends_on fine,
        check_dependencies-ok incoming known ts (rw (fine, check_dependencies) at h),
      )
      | inr (d, bad) ↦
          let e : err (unknown_dependency t.id d) ≡ ok tt = rw (bad, check_dependencies) at h in cc
    ]

store-has_key :
    (k : String) (ts : List Task) (s : Scheduler)
    → has_key k (store ts s).tasks ≡ (elem k (task_ids ts) || has_key k s.tasks)
unfolding store elem
store-has_key k [] s = refl
store-has_key k (t ∷ ts) s = store-has_key k ts _ ∙ ground (arith, has_key-insert t.id k t s.tasks)

store-lookup :
    (k : String) (ts : List Task) (s : Scheduler) (t : Task)
    → lookup k (store ts s).tasks ≡ some t
    → In t ts ⊎ (lookup k s.tasks ≡ some t)
unfolding store
store-lookup k [] s t e = inr e
store-lookup k (u ∷ us) s t e = elim (store-lookup k us _ t e) [
  | inl later ↦ inl (inr later)
  | inr here ↦
      let found = sym (lookup-insert u.id k u s.tasks) ∙ here in
      elim (Bool-cases (u.id == k)) [
        | inl same ↦ let e' : some u ≡ some t = rw same at found in inl (inl (cc))
        | inr other ↦ inr (rw other at found)
      ]
]

nothing_left : {A : Type 0} (xs : List A) → is_empty xs ≡ true → xs ≡ []
nothing_left [] h = refl
nothing_left (x ∷ xs) h = cc

submit_cases :
    (ts : List Task) (s : Scheduler) {s' : Scheduler}
    → submit ts s ≡ ok s'
    → (length (distinct (task_ids ts)) ≡ length ts)
      × (is_empty (select (λ id. has_key id s.tasks) (distinct (task_ids ts))) ≡ true)
      × (check_dependencies (distinct (task_ids ts)) s.tasks ts ≡ ok tt)
      × (check_acyclic s.tasks ts ≡ ok tt)
      × (s' ≡ store ts s)
unfolding submit
submit_cases ts s e = ground arith

closed_deps :
    (ts : List Task) (s : Scheduler) (deps : List String)
    → All (λ dep. (elem dep (distinct (task_ids ts)) || has_key dep s.tasks) ≡ true) deps
    → All (λ dep. has_key dep (store ts s).tasks ≡ true) deps
closed_deps ts s [] h = tt
closed_deps ts s (d ∷ ds) h = (
  ground (arith, store-has_key d ts s, elem-distinct d (task_ids ts), h.0),
  closed_deps ts s ds h.1,
)

kept_deps :
    (ts : List Task) (s : Scheduler) (deps : List String)
    → All (λ dep. has_key dep s.tasks ≡ true) deps
    → All (λ dep. has_key dep (store ts s).tasks ≡ true) deps
kept_deps ts s [] h = tt
kept_deps ts s (d ∷ ds) h = (ground (arith, store-has_key d ts s, h.0), kept_deps ts s ds h.1)

-- An admitted submission keeps the graph closed: every dependency of a stored task is stored.
submit-IsClosed :
    (ts : List Task) (s : Scheduler) {s' : Scheduler}
    → IsClosed s
    → submit ts s ≡ ok s'
    → IsClosed s'
submit-IsClosed ts s {s'} h e =
    let (_, _, checked, _, same) = submit_cases ts s e in
    let fine = check_dependencies-ok (distinct (task_ids ts)) s.tasks ts checked in
    rw same λ id t found. elim (store-lookup id ts s t found) [
      | inl new ↦ closed_deps ts s t.depends_on (
          All-In
            (λ u.
              All (λ dep. (elem dep (distinct (task_ids ts)) || has_key dep s.tasks) ≡ true)
                u.depends_on)
            t ts fine new)
      | inr old ↦ kept_deps ts s t.depends_on (h id t old)
    ]

pub submit-has_key :
    (ts : List Task) (s : Scheduler) {s' : Scheduler}
    → submit ts s ≡ ok s'
    → (id : String) → has_key id s'.tasks ≡ (elem id (task_ids ts) || has_key id s.tasks)
submit-has_key ts s e id =
    let (_, _, _, _, same) = submit_cases ts s e in rw same (store-has_key id ts s)

-- Where every dependency of a stored task is stored, it is so again after an admitted submission.
-- What is admitted has distinct ids, none of them stored before, and the ids stored then are those
-- and the ones stored before.
pub submit-ok :
    (ts : List Task) (s : Scheduler) {s' : Scheduler}
    → IsClosed s
    → submit ts s ≡ ok s'
    → (length (distinct (task_ids ts)) ≡ length ts)
      × ((id : String) → In id (task_ids ts) → has_key id s.tasks ≡ false)
      × IsClosed s'
      × ((id : String) → has_key id s'.tasks ≡ (elem id (task_ids ts) || has_key id s.tasks))
submit-ok ts s h e =
    let (unique, none_clashes, _, _, _) = submit_cases ts s e in
    (
      unique,
      λ id m. elim (Bool-cases (has_key id s.tasks)) [
        | inl clash ↦
            let listed : elem id (distinct (task_ids ts)) ≡ true =
              elem-distinct id (task_ids ts) ∙ (elem_iff id (task_ids ts)).1 m in
            let bad : In id (select (λ id. has_key id s.tasks) (distinct (task_ids ts))) =
              (In-select id (λ id. has_key id s.tasks) (distinct (task_ids ts))).1
                ((elem_iff id (distinct (task_ids ts))).0 listed, clash) in
            absurd (rw (nothing_left _ none_clashes) at bad)
        | inr free ↦ free
      ],
      submit-IsClosed ts s h e,
      submit-has_key ts s e,
    )
