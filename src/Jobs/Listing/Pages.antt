-- ===== src/Jobs/Listing/Pages.antt =====
-- What a page of jobs has: jobs of the user, no more than asked for, and what was searched for.
use luxury_video_tool.Base.{
  ℕ, ◌≤◌, ◌≡◌, ◌⊎◌, ◌||◌, Option, refl, ◌∙◌, String, none, some, Bool, true, false, List, [], ◌∷◌,
  ◌++◌, str_eq, eq_iff, trim_space, length, All, All-map, arith, Bool-cases, Option-cases, inl, inr,
}
use luxury_video_tool.Sql.{find}
use luxury_video_tool.Sql.Like.{like, codes}
use luxury_video_tool.Sql.Like.Escape.{
  begins, contains, is_special, like_percent, like_plain, like_escaped, at_suffix-true,
  at_suffix_same, one_same,
}
use luxury_video_tool.Jobs.Model.{Job, Db, is_processing}
use luxury_video_tool.Jobs.Listing.Cut.{page_of-All}
use luxury_video_tool.Jobs.Listing.{
  WorkRow, ListInput, like_column, escape_like, like_pattern, status_text, matches_query,
  matches_filters, matches, list_page, matches_any, list_all_page, list_all_jobs, clamp, list_jobs,
}

like-escape_like :
    (query text : List ℕ) → like (escape_like query ++ 37 ∷ []) text ≡ begins query text
unfolding escape_like begins
like-escape_like [] text = like_percent [] text ∙ at_suffix-true text
like-escape_like (q ∷ qs) text = elim (Bool-cases (is_special q)) [
  | inl e ↦
      rw (e, like_escaped q (escape_like qs ++ 37 ∷ []) text)
        (one_same _ (like (escape_like qs ++ 37 ∷ [])) (begins qs) (like-escape_like qs) text)
  | inr e ↦
      rw (e, like_plain q (escape_like qs ++ 37 ∷ []) text e)
        (one_same _ (like (escape_like qs ++ 37 ∷ [])) (begins qs) (like-escape_like qs) text)
]

-- The search of a query finds exactly the texts that contain it, up to the case of ASCII letters,
-- whatever wildcards the query has.
pub like-like_pattern :
    (query : String) (text : List ℕ) → like (like_pattern query) text ≡ contains (codes query) text
unfolding like_pattern contains
like-like_pattern query text =
    like_percent (escape_like (codes query) ++ 37 ∷ []) text
    ∙ at_suffix_same (like (escape_like (codes query) ++ 37 ∷ [])) (begins (codes query))
        (like-escape_like (codes query)) text

-- The job names a work whose title or author contains the text.
abbrev pub WorkHas : List WorkRow → List ℕ → Job → Type 0
WorkHas works text r =
    (id : String) × (r.work_id ≡ some id)
    × (w : WorkRow) × (find (λ x. str_eq x.id id) works ≡ some w)
    × ((contains text (codes w.title) ≡ true)
        ⊎ ((author : String) × (w.author_name ≡ some author)
            × (contains text (codes author) ≡ true)))

-- What the filters ask for: the status, where one is asked for and "processing" is each one in
-- progress, the action, and the text in what the user has put in or in the work.
pub record IsAsked (works : List WorkRow) (input : ListInput) (r : Job) : Type 0 where
  pub status :
      (input.status ≡ "")
      ⊎ ((input.status ≡ "processing") × (is_processing r.status ≡ true))
      ⊎ (status_text r.status ≡ input.status)
  pub action : (input.action ≡ "") ⊎ (r.action ≡ input.action)
  pub query :
      (trim_space input.query ≡ "")
      ⊎ (contains (codes (trim_space input.query)) (codes r.input_text) ≡ true)
      ⊎ WorkHas works (codes (trim_space input.query)) r

module _ (works : List WorkRow) (input : ListInput) (r : Job) where
  asked-status :
      matches_filters works input r ≡ true
      → (input.status ≡ "")
        ⊎ ((input.status ≡ "processing") × (is_processing r.status ≡ true))
        ⊎ (status_text r.status ≡ input.status)
  unfolding matches_filters
  asked-status e = elim (Bool-cases (str_eq input.status "")) [
    | inl h ↦ inl ((eq_iff input.status "").0 h)
    | inr h ↦ elim (Bool-cases (str_eq input.status "processing")) [
      | inl g ↦ inr (inl ((eq_iff input.status "processing").0 g, ground arith))
      | inr g ↦ inr (inr ((eq_iff (status_text r.status) input.status).0 (ground arith)))
    ]
  ]

  asked-action :
      matches_filters works input r ≡ true → (input.action ≡ "") ⊎ (r.action ≡ input.action)
  unfolding matches_filters
  asked-action e = elim (Bool-cases (str_eq input.action "")) [
    | inl h ↦ inl ((eq_iff input.action "").0 h)
    | inr h ↦ inr ((eq_iff r.action input.action).0 (ground arith))
  ]

  title_or_author :
      (query : String) (w : WorkRow) (o : Option String)
      → w.author_name ≡ o
      → like (like_pattern query) (codes w.title) || like_column (like_pattern query) o ≡ true
      → (contains (codes query) (codes w.title) ≡ true)
        ⊎ ((author : String) × (w.author_name ≡ some author)
            × (contains (codes query) (codes author) ≡ true))
  title_or_author query w o named e =
      elim (Bool-cases (like (like_pattern query) (codes w.title))) [
        | inl h ↦ inl (rw (like-like_pattern query (codes w.title)) at h)
        | inr h ↦ inr (by_author o named (rw h at e))
      ]
    where
      by_author :
          (o : Option String)
          → w.author_name ≡ o
          → like_column (like_pattern query) o ≡ true
          → (author : String) × (w.author_name ≡ some author)
            × (contains (codes query) (codes author) ≡ true)
      by_author none named e = cc
      by_author (some author) named e =
          (author, named, rw (like-like_pattern query (codes author)) at e)

  work-has :
      (query : String)
      → like (like_pattern query) (codes r.input_text) ≡ false
      → matches_query works query r ≡ true
      → WorkHas works (codes query) r
  unfolding matches_query
  work-has query h e = elim (Option-cases r.work_id) [
    | inl n ↦ absurd (let no_work : ◌≡◌ {A = Bool} false true = rw (h, n) at e in cc)
    | inr (id, n) ↦ elim (Option-cases (find (λ x. str_eq x.id id) works)) [
      | inl m ↦ absurd (let no_row : ◌≡◌ {A = Bool} false true = rw (h, n, m) at e in cc)
      | inr (w, m) ↦ (id, n, w, m, title_or_author query w w.author_name refl (rw (h, n, m) at e))
    ]
  ]

  asked-query :
      (query : String)
      → matches_query works query r ≡ true
      → (contains (codes query) (codes r.input_text) ≡ true) ⊎ WorkHas works (codes query) r
  asked-query query e = elim (Bool-cases (like (like_pattern query) (codes r.input_text))) [
    | inl h ↦ inl (rw (like-like_pattern query (codes r.input_text)) at h)
    | inr h ↦ inr (work-has query h e)
  ]

filters_query :
    (works : List WorkRow) (input : ListInput) (r : Job)
    → str_eq input.query "" ≡ false
    → matches_filters works input r ≡ true
    → matches_query works input.query r ≡ true
unfolding matches_filters
filters_query works input r h e = ground arith

matches_filters-IsAsked :
    (works : List WorkRow) (input : ListInput) (r : Job)
    → matches_filters works (clamp input) r ≡ true
    → IsAsked works input r
unfolding clamp
matches_filters-IsAsked works input r e = record {
  status = asked-status works (clamp input) r e;
  action = asked-action works (clamp input) r e;
  query = elim (Bool-cases (str_eq (trim_space input.query) "")) [
    | inl h ↦ inl ((eq_iff (trim_space input.query) "").0 h)
    | inr h ↦ inr (
        asked-query works input r (trim_space input.query)
          (filters_query works (clamp input) r h e))
  ];
}

matches-IsAsked :
    (works : List WorkRow) (input : ListInput) (r : Job)
    → matches works (clamp input) r ≡ true
    → (r.user_id ≡ input.user_id) × IsAsked works input r
unfolding matches clamp
matches-IsAsked works input r e = (
  (eq_iff r.user_id input.user_id).0 (ground arith),
  matches_filters-IsAsked works input r (ground arith),
)

matches_any-IsAsked :
    (works : List WorkRow) (input : ListInput) (r : Job)
    → matches_any works (clamp input) r ≡ true
    → ((input.user_id ≡ "") ⊎ (r.user_id ≡ input.user_id)) × IsAsked works input r
unfolding matches_any clamp
matches_any-IsAsked works input r e = (
  elim (Bool-cases (str_eq input.user_id "")) [
    | inl h ↦ inl ((eq_iff input.user_id "").0 h)
    | inr h ↦ inr ((eq_iff r.user_id input.user_id).0 (ground arith))
  ],
  matches_filters-IsAsked works input r (ground arith),
)

clamp-limit : (input : ListInput) → (clamp input).limit ≤ 100
unfolding clamp
clamp-limit input = ground arith

-- A page of List has at most 100 jobs, all of the user who asks. Each has the status and the action
-- that were asked for, where they were, with "processing" for every status in progress, and, where
-- there is a text to search for, has it in its input or in the title or the author of its work.
pub list_jobs-All :
    (works : List WorkRow) (input : ListInput) (db : Db)
    → All
        (λ f. (f.job.user_id ≡ input.user_id) × IsAsked works input f.job)
        (list_jobs works input db).items
      × (length (list_jobs works input db).items ≤ 100)
unfolding list_jobs list_page
list_jobs-All works input db =
    let page = page_of-All (matches works (clamp input)) (clamp input) db in
    (
      All-map _ _ (λ f e. matches-IsAsked works input f.job e) _ page.0,
      omega (arith, page.1, clamp-limit input),
    )

-- A page of ListAll has at most 100 jobs, of the user where one was named, and each has what the
-- filters ask for.
pub list_all_jobs-All :
    (works : List WorkRow) (input : ListInput) (db : Db)
    → All
        (λ f. ((input.user_id ≡ "") ⊎ (f.job.user_id ≡ input.user_id)) × IsAsked works input f.job)
        (list_all_jobs works input db).items
      × (length (list_all_jobs works input db).items ≤ 100)
unfolding list_all_jobs list_all_page
list_all_jobs-All works input db =
    let page = page_of-All (matches_any works (clamp input)) (clamp input) db in
    (
      All-map _ _ (λ f e. matches_any-IsAsked works input f.job e) _ page.0,
      omega (arith, page.1, clamp-limit input),
    )
