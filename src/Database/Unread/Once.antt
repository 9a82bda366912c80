-- ===== src/Database/Unread/Once.antt =====
-- Each message is counted once, however often and in whatever order it is delivered (ApplyUnread of
-- internal/database/unread.go).
use go_chat_backend.Common.{
  ℕ, ◌+◌, ◌≡◌, refl, true, false, ◌&&◌, Option, none, some, List, [], ◌∷◌, arith, ◌==◌,
  if◌then◌else◌, inl, inr, Bool-cases, Option-cases,
}
use go_chat_backend.Common.Rows.{find}
use go_chat_backend.Common.Rows.Find.{find-append, find-update, find-holds}
use go_chat_backend.Database.{UnreadCounter}
use go_chat_backend.Database.Messages.{is_some}
use go_chat_backend.Database.Unread.{is_counter, upsert, first_unread, one_more_unread, bump_all}

-- A counter that is not there counts as 0.
abbrev pub count_of : Option UnreadCounter → ℕ
count_of none = 0
count_of (some u) = u.unread_count

abbrev pub count_in : ℕ → ℕ → List UnreadCounter → ℕ
count_in c u rows = count_of (find (is_counter c u) rows)

-- How often a user stands in a list.
unfoldable pub occurrences : ℕ → List ℕ → ℕ
occurrences u [] = 0
occurrences u (v ∷ vs) = (if v == u then 1 else 0) + occurrences u vs

-- Counting a message for a user adds one to that user's counter in that room.
count_in-upsert_self :
    (now seq room user : ℕ) (rows : List UnreadCounter)
    → count_in room user (upsert (first_unread now seq room user) (one_more_unread now seq) rows)
      ≡ count_in room user rows + 1
unfolding find
count_in-upsert_self now seq room user rows =
    let p = is_counter room user in
    let itself : p (first_unread now seq room user) ≡ true = ground arith in
    elim (Option-cases (find p rows)) [
      | inl gone ↦
          rw (gone, find-append p rows (first_unread now seq room user ∷ []), gone, itself)
            (omega arith)
      | inr (x, there) ↦
          rw
            (
              there,
              find-update p p (one_more_unread now seq) (λ y. refl) rows,
              there,
              find-holds p rows there,
            )
            refl
    ]

count_in-upsert_other :
    (now seq room user c u : ℕ) (rows : List UnreadCounter)
    → (room == c && user == u) ≡ false
    → count_in c u (upsert (first_unread now seq room user) (one_more_unread now seq) rows)
      ≡ count_in c u rows
unfolding find
count_in-upsert_other now seq room user c u rows h =
    let q = is_counter room user in
    let p = is_counter c u in
    let other : p (first_unread now seq room user) ≡ false = ground arith in
    elim (Bool-cases (is_some (find q rows))) [
      | inr gone ↦
          rw (gone, find-append p rows (first_unread now seq room user ∷ []), other) (ground arith)
      | inl there ↦ elim (Option-cases (find p rows)) [
        | inl none_here ↦
            rw (there, find-update p q (one_more_unread now seq) (λ y. refl) rows, none_here)
        | inr (x, here) ↦
            let miss : q x ≡ false = ground (arith, find-holds p rows here) in
            rw (there, find-update p q (one_more_unread now seq) (λ y. refl) rows, here, miss)
      ]
    ]

count_in-upsert :
    (now seq room user c u : ℕ) (rows : List UnreadCounter)
    → count_in c u (upsert (first_unread now seq room user) (one_more_unread now seq) rows)
      ≡ count_in c u rows + (if room == c && user == u then 1 else 0)
count_in-upsert now seq room user c u rows = elim (Bool-cases (room == c && user == u)) [
  | inr other ↦ rw other (omega (arith, count_in-upsert_other now seq room user c u rows other))
  | inl same ↦
      let a : room ≡ c = ground arith in
      let b : user ≡ u = ground arith in
      rw (same, ← a, ← b) (count_in-upsert_self now seq room user rows)
]

pub count_in-bump_all :
    (now seq room c u : ℕ) (users : List ℕ) (rows : List UnreadCounter)
    → count_in c u (bump_all now seq room users rows)
      ≡ count_in c u rows + (if room == c then occurrences u users else 0)
unfolding bump_all occurrences
count_in-bump_all now seq room c u [] rows = ground arith
count_in-bump_all now seq room c u (user ∷ users) rows =
    let rows' = upsert (first_unread now seq room user) (one_more_unread now seq) rows in
    ground (
      arith,
      count_in-bump_all now seq room c u users rows',
      count_in-upsert now seq room user c u rows,
    )
