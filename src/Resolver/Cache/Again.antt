-- ===== src/Resolver/Cache/Again.antt =====
-- A work that was resolved is answered from the cache while it is fresh.
use luxury_video_tool.Base.{
  ℕ, ◌+◌, ◌-◌, ◌≤◌, ◌≡◌, refl, ap, String, Option, none, some, Bool, true, false, not, ◌&&◌, ◌||◌,
  List, [], ◌∷◌, str_eq, arith, Bool-cases, inl, inr, Option-cases,
}
use luxury_video_tool.Sql.{find, exists}
use luxury_video_tool.Resolver.Work.{Work, is_empty_shell}
use luxury_video_tool.Resolver.Cache.{
  is_work, is_fresh, find_fresh, find_work, completed_work, upsert, save, saved, cached,
  is_content_type, Answer, answered, keep, answer_from, resolve,
}

find_stronger {ℓ} :
    {A : Type ℓ} (p q : A → Bool) (xs : List A) {x : A}
    → find p xs ≡ some x
    → q x ≡ true
    → find (λ y. p y && q y) xs ≡ some x
unfolding find
find_stronger p q [] e h = cc
find_stronger p q (y ∷ xs) {x} e h = elim (Bool-cases (p y)) [
  | inl t ↦ let same : y ≡ x = ground arith in let k : q y ≡ true = rw same h in ground arith
  | inr t ↦ ground (arith, find_stronger p q xs (ground arith) h)
]

-- A pair without a work is none with one.
no_work :
    (works works' : List Work) (w : Work)
    → ◌≡◌ {A = List Work × Option Work} (works, none) (works', some w)
    → ⊥
no_work works works' w e = ground arith

placed :
    (rows works' : List Work) (work_id version : String) (w : Work)
    → ◌≡◌ {A = List Work × Option Work} (rows, find_work work_id version rows) (works', some w)
    → find (is_work work_id version) works' ≡ some w
unfolding find_work
placed rows works' work_id version w e =
    let same : rows ≡ works' = ap (λ (t : List Work × Option Work). t.0) e in
    rw (← same) (ap (λ (t : List Work × Option Work). t.1) e)

-- What Save gives is what a lookup finds in the table that it leaves.
save-find :
    (id : String) (now : ℕ) (work : Work) (works : List Work) {works' : List Work} {w : Work}
    → save id now work works ≡ (works', some w)
    → find (is_work work.douyin_work_id work.resolver_version) works' ≡ some w
unfolding save completed_work
save-find id now work works {works'} {w} h =
    let row : Work = completed_work id now work in
    elim (Bool-cases
      (not (is_content_type row.work_type) || exists (λ x. str_eq x.id row.id) works)) [
        | inl e ↦ absurd (no_work works works' w (rw e at h))
        | inr e ↦
            placed (upsert row works) works' row.douyin_work_id row.resolver_version w (rw e at h)
      ]

saved_back :
    (r : List Work × Option Work) {works' : List Work} {w : Work}
    → saved r ≡ (works', answered w false)
    → r ≡ (works', some w)
saved_back (works, none) h = absurd (ground arith)
saved_back (works, some v) h = ground arith

kept_back :
    (id : String) (now : ℕ) (work : Work) (works : List Work) {works' : List Work} {w : Work}
    → is_empty_shell work ≡ false
    → keep id now (some work) works ≡ (works', answered w false)
    → save id now work works ≡ (works', some w)
unfolding keep
kept_back id now work works shell h = saved_back (save id now work works) (rw shell at h)

-- Where a work was resolved anew and kept, a later request for it that does not force a new
-- resolution is answered with the same work from the cache, as long as its age is at most the time
-- to live, whatever the adapter would answer, and nothing is written.
pub resolve-again :
    (ttl : ℕ) (version : String) (work_id : String) (force : Bool) (now at later : ℕ) (work : Work)
    (other : Option Work) (id id' : String) (works : List Work) {works' : List Work} {w : Work}
    → resolve ttl version (some work_id) force now (some work) id at works
      ≡ (works', answered w false)
    → is_empty_shell work ≡ false
    → work.resolver_version ≡ version
    → work.douyin_work_id ≡ work_id
    → str_eq work_id "" ≡ false
    → later ≤ w.resolved_at + ttl
    → resolve ttl version (some work_id) false later other id' at works' ≡ (works', answered w true)
unfolding resolve
resolve-again ttl version work_id force now at later work other id id' works {works'} {w} h shell v
      d n fresh =
    elim (Option-cases (cached force work_id version (now - ttl) works)) [
      | inl miss ↦
          let found =
            save-find id at work works
              (kept_back id at work works shell (rw (miss, answer_from) at h)) in
          let again : find_fresh work_id version (later - ttl) works' ≡ some w =
            unfold find_fresh in
            find_stronger (is_work work_id version) (is_fresh (later - ttl)) works'
              (rw (v, d) at found) (ground arith) in
          rw (n, again, answer_from) refl
      | inr (x, hit) ↦ absurd (fresh_answer x (rw (hit, answer_from) at h))
    ]
  where
    fresh_answer :
        (x : Work)
        → ◌≡◌ {A = List Work × Answer} (works, answered x true) (works', answered w false)
        → ⊥
    fresh_answer x e = ground arith
