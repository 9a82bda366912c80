-- ===== src/Server/Conversations/CatchUp.antt =====
-- A client that was away reads the gap page by page (listGap of internal/server/conversations.go).
use go_chat_backend.Common.{
  ℕ, zero, suc, ◌+◌, ◌*◌, ◌≤◌, ◌<◌, ◌≡◌, refl, ap, sym, subst, ◌∙◌, true, false, Option, none, some,
  List, [], ◌∷◌, ◌++◌, map, arith, ◌==◌, if◌then◌else◌, inl, inr, Bool-cases, take, drop, drop-drop,
  take-append-drop, length, length-take, length-append, range_from, ==→eq, eq→==, append-nil,
}
use go_chat_backend.Database.{Message, Db, Env}
use go_chat_backend.Database.Messages.Gapless.{IsGapless, last_seq_at, room_messages, seq_of}
use go_chat_backend.Database.Messages.Gap.{list_messages_after_seq-drop}
use go_chat_backend.Server.Conversations.{PageQuery, MessagePage, list_gap, cursor, last_of}

abbrev pub gap_query : ℕ → ℕ → PageQuery
gap_query after_seq limit = record {
  before_id = 0;
  after_seq = after_seq;
  gap = true;
  limit = limit;
}

-- The messages are numbered one after the other from `s` on.
abbrev Numbered : ℕ → List Message → Type 0
Numbered s [] = Unit {0}
Numbered s (m ∷ ms) = (m.seq ≡ s) × Numbered (suc s) ms

range-Numbered : (s n : ℕ) (ms : List Message) → map seq_of ms ≡ range_from s n → Numbered s ms
range-Numbered s n [] h = tt
range-Numbered s zero (m ∷ ms) h = cc
range-Numbered s (suc n) (m ∷ ms) h =
    let e : m.seq ≡ s = cc in
    let rest : map seq_of ms ≡ range_from (suc s) n = cc in (e, range-Numbered (suc s) n ms rest)

Numbered-drop : (a s : ℕ) (ms : List Message) → Numbered s ms → Numbered (s + a) (drop a ms)
Numbered-drop zero s ms h = subst (λ k. Numbered k (drop 0 ms)) (omega arith) (same ms h)
  where
    same : (ms : List Message) → Numbered s ms → Numbered s (drop 0 ms)
    same [] h = tt
    same (m ∷ ms) h = h
Numbered-drop (suc a) s [] h = tt
Numbered-drop (suc a) s (m ∷ ms) h =
    let e : suc s + a ≡ s + suc a = omega arith in
    subst (λ k. Numbered k (drop a ms)) e (Numbered-drop a (suc s) ms h.1)

Numbered-take : (a s : ℕ) (ms : List Message) → Numbered s ms → Numbered s (take a ms)
Numbered-take zero s [] h = tt
Numbered-take zero s (m ∷ ms) h = tt
Numbered-take (suc a) s [] h = tt
Numbered-take (suc a) s (m ∷ ms) h = (h.0, Numbered-take a (suc s) ms h.1)

last_of-Numbered :
    (s n : ℕ) (ms : List Message)
    → Numbered s ms
    → length ms ≡ suc n
    → last_of (λ m. m.seq) ms ≡ some (s + n)
last_of-Numbered s n [] h e = ground (arith, e)
last_of-Numbered s n (m ∷ []) h e =
    let z : m.seq ≡ s + n = omega (arith, h.0, e) in ap (λ k. some k) z
last_of-Numbered s zero (m ∷ m' ∷ ms) h e = ground (arith, e)
last_of-Numbered s (suc n) (m ∷ m' ∷ ms) h e =
    let ih = last_of-Numbered (suc s) n (m' ∷ ms) h.1 (omega arith) in
    let z : suc s + n ≡ s + suc n = omega arith in
    ap (λ (o : Option ℕ). elim o [ none ↦ some m.seq | some k ↦ some k ]) ih ∙ ap (λ k. some k) z

take_all : (n : ℕ) (ms : List Message) → length ms < n → take n ms ≡ ms
take_all zero ms h = ground arith
take_all (suc n) [] h = refl
take_all (suc n) (m ∷ ms) h = ap (λ xs. m ∷ xs) (take_all n ms (omega arith))

length-drop : (n : ℕ) (ms : List Message) → length ms ≤ length (drop n ms) + n
length-drop zero [] = omega arith
length-drop (suc n) [] = omega arith
length-drop zero (m ∷ ms) = omega arith
length-drop (suc n) (m ∷ ms) = omega (arith, length-drop n ms)

-- A client asks for page after page, each from the cursor of the one before, until a page has no
-- cursor. It has no result if it is not through after so many pages, or if a page is refused.
abbrev pub prepend : List Message → Option (List Message) → Option (List Message)
prepend ms none = none
prepend ms (some later) = some (ms ++ later)

abbrev pub continue_from : (ℕ → Option (List Message)) → Option ℕ → Option (List Message)
continue_from go none = some []
continue_from go (some n) = go n

abbrev pub read_page : (ℕ → Option (List Message)) → Option MessagePage → Option (List Message)
read_page go none = none
read_page go (some page) = prepend page.messages (continue_from go page.next_after_seq)

unfoldable pub catch_up : Env → ℕ → ℕ → ℕ → ℕ → Db → Option (List Message)
catch_up env room limit zero after_seq db = none
catch_up env room limit (suc pages) after_seq db =
    read_page (λ n. catch_up env room limit pages n db)
      (list_gap env room (gap_query after_seq limit) db).0.body

module _ (env : Env) (room limit ids : ℕ) (db : Db) (fine : env.fails 0 ≡ false)
    (gapless : IsGapless db.tables ids) where
  rest_after : ℕ → List Message
  rest_after n = drop n (room_messages room db.tables)

  list_gap-body :
      (after_seq : ℕ)
      → (list_gap env room (gap_query after_seq limit) db).0.body
        ≡ some (record {
          messages = take limit (rest_after after_seq);
          next_before_id = none;
          next_after_seq = cursor limit (λ m. m.seq) (take limit (rest_after after_seq));
        })
  unfolding list_gap rest_after
  list_gap-body after_seq =
      rw (list_messages_after_seq-drop env room after_seq limit ids db fine gapless) refl

  rest-Numbered : (n : ℕ) → Numbered (1 + n) (rest_after n)
  unfolding rest_after
  rest-Numbered n = Numbered-drop n 1 (room_messages room db.tables) (
      range-Numbered 1 (last_seq_at room db.tables) (room_messages room db.tables)
        (gapless.seqs room))

  -- The cursor of a full page is the number of its last message; a page that is not full is the last.
  cursor-full :
      (n l : ℕ)
      → limit ≡ suc l
      → length (take limit (rest_after n)) ≡ limit
      → cursor limit (λ m. m.seq) (take limit (rest_after n)) ≡ some (n + limit)
  cursor-full n l e full =
      let here = eq→== (length (take limit (rest_after n))) limit full in
      let z : 1 + n + l ≡ n + limit = omega arith in
      ap (λ b. if b then last_of (λ m. m.seq) (take limit (rest_after n)) else none) here
      ∙ last_of-Numbered (1 + n) l (take limit (rest_after n))
          (Numbered-take limit (1 + n) (rest_after n) (rest-Numbered n)) (full ∙ e)
      ∙ ap (λ k. some k) z

  catch_up-rest :
      (pages n l : ℕ)
      → limit ≡ suc l
      → length (rest_after n) < pages * limit
      → catch_up env room limit pages n db ≡ some (rest_after n)
  unfolding catch_up
  catch_up-rest zero n l e enough = ground (arith, enough)
  catch_up-rest (suc pages) n l e enough =
      let page = take limit (rest_after n) in
      let go : ℕ → Option (List Message) = λ k. catch_up env room limit pages k db in
      let total : length page + length (drop limit (rest_after n)) ≡ length (rest_after n) =
        sym (length-append page (drop limit (rest_after n)))
        ∙ ap length (take-append-drop limit (rest_after n)) in
      ap (read_page go) (list_gap-body n) ∙ elim (Bool-cases (length page == limit)) [
        | inl full ↦
            let same = ==→eq (length page) limit full in
            let left : rest_after (n + limit) ≡ drop limit (rest_after n) =
              unfold rest_after in sym (drop-drop limit n (room_messages room db.tables)) in
            ap (λ o. prepend page (continue_from go o)) (cursor-full n l e same)
            ∙ ap (λ o. prepend page o)
                (catch_up-rest pages (n + limit) l e
                    (omega (arith, ap length left, total, same, enough))
                  ∙ ap some left)
            ∙ ap some (take-append-drop limit (rest_after n))
        | inr short ↦
            ap
              (λ b. prepend page (continue_from go (if b then last_of (λ m. m.seq) page else none)))
              short
            ∙ ap some (append-nil page)
            ∙ ap some (
                take_all limit (rest_after n)
                  (ground (arith, length-take limit (rest_after n), short)))
      ]

-- If the database answers and the rooms' numbers have no gaps, then a client that follows the cursors of
-- the gap, by pages of one message or more, comes to a page without a cursor within any number of pages
-- that could hold one message more than it missed; and what it has read by then is exactly the messages
-- that it missed, in the order in which they were sent, each once.
pub catch_up_lem :
    (env : Env) (room limit ids pages after_seq : ℕ) (db : Db)
    → env.fails 0 ≡ false
    → IsGapless db.tables ids
    → 0 < limit
    → length (drop after_seq (room_messages room db.tables)) < pages * limit
    → catch_up env room limit pages after_seq db
      ≡ some (drop after_seq (room_messages room db.tables))
unfolding rest_after
catch_up_lem env room zero ids pages after_seq db fine gapless some_ enough = ground (arith, some_)
catch_up_lem env room (suc l) ids pages after_seq db fine gapless some_ enough =
    catch_up-rest env room (suc l) ids db fine gapless pages after_seq l refl enough
