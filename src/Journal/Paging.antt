-- ===== src/Journal/Paging.antt =====
-- The pages of `replay`, one after the other, are the whole journal.
use poor_travel_agent.Base.{
  ℕ, zero, suc, ◌+◌, ◌≤◌, ◌<◌, ◌≡◌, refl, sym, ap, subst, ◌∙◌, Bool, true, false, List, [], ◌∷◌,
  ◌++◌, ltb, ltb→lt, take, drop, length, length-take, take-append-drop, arith, inl, inr, ◌⊎◌,
  Bool-cases,
}
use native.Mathlib.Numerals.{towards_suc}
use poor_travel_agent.Base.Effect.{Result, ok, raised}
use poor_travel_agent.Journal.Rows.{Error, Row, Db, Context, SessionEvent}
use poor_travel_agent.Journal.Input.{event_from_row, event_from_row_ok}
use poor_travel_agent.Journal.Reads.{
  ReplayPage, page_of, events_from_rows, last_sequence_or, rows_after, replay,
}
use poor_travel_agent.Journal.Valid.{Increasing, IsValid}

abbrev Ascending : ℕ → List Row → Type 0
Ascending low [] = Unit
Ascending low (row ∷ rows) = (low < row.sequence) × Ascending row.sequence rows

Ascending-of_Increasing :
    (low : ℕ) (rows : List Row) (high : ℕ) → Increasing low rows high → Ascending low rows
Ascending-of_Increasing low [] high h = tt
Ascending-of_Increasing low (row ∷ rows) high h =
    (h.0, Ascending-of_Increasing row.sequence rows high h.1)

Ascending-weaken :
    (low low' : ℕ) (rows : List Row) → low' ≤ low → Ascending low rows → Ascending low' rows
Ascending-weaken low low' [] le h = tt
Ascending-weaken low low' (row ∷ rows) le h = (omega (arith, h.0), h.1)

rows_after_all :
    (low : ℕ) (rows : List Row) (cursor : ℕ)
    → cursor ≤ low
    → Ascending low rows
    → rows_after cursor rows ≡ rows
unfolding rows_after
rows_after_all low [] cursor le h = refl
rows_after_all low (row ∷ rows) cursor le h =
    let rest = rows_after_all row.sequence rows cursor (omega (arith, h.0)) h.1 in
    ground (arith, rest, h.0)

rows_after-Ascending :
    (low : ℕ) (rows : List Row) (cursor : ℕ)
    → Ascending low rows
    → Ascending cursor (rows_after cursor rows)
unfolding rows_after
rows_after-Ascending low [] cursor h = tt
rows_after-Ascending low (row ∷ rows) cursor h = elim (Bool-cases (ltb cursor row.sequence)) [
  | inl in' ↦
      rw in' (ground arith, rw (rows_after_all row.sequence rows cursor (ground arith) h.1) h.1)
  | inr out ↦ rw out (rows_after-Ascending row.sequence rows cursor h.1)
]

abbrev last_row : ℕ → List Row → ℕ
last_row d [] = d
last_row d (row ∷ rows) = last_row row.sequence rows

last_row-ge : (n low : ℕ) (rows : List Row) → Ascending low rows → low ≤ last_row low (take n rows)
last_row-ge zero low rows h = omega arith
last_row-ge (suc n) low [] h = omega arith
last_row-ge (suc n) low (row ∷ rows) h = omega (arith, last_row-ge n row.sequence rows h.1, h.0)

-- behind the last of the first n rows stand the others
rows_after-last_row :
    (n low : ℕ) (rows : List Row)
    → Ascending low rows
    → rows_after (last_row low (take n rows)) rows ≡ drop n rows
unfolding rows_after
rows_after-last_row zero low rows h = rows_after_all low rows low (omega arith) h
rows_after-last_row (suc n) low [] h = refl
rows_after-last_row (suc n) low (row ∷ rows) h =
    let rest = rows_after-last_row n row.sequence rows h.1 in
    let bound = last_row-ge n row.sequence rows h.1 in ground (arith, rest, bound)

rows_after-rows_after :
    (a b : ℕ) (rows : List Row) → a ≤ b → rows_after b (rows_after a rows) ≡ rows_after b rows
unfolding rows_after
rows_after-rows_after a b [] le = refl
rows_after-rows_after a b (row ∷ rows) le = ground (arith, rows_after-rows_after a b rows le)

event_sequence :
    (c : Context) (row : Row) (e : SessionEvent)
    → event_from_row c row ≡ ok e
    → e.sequence ≡ row.sequence
event_sequence c row e h = let (p, _, q) = event_from_row_ok c row h in ap (λ x. x.sequence) q

events_cons :
    (c : Context) (row : Row) (rows : List Row) {items : List SessionEvent}
    → events_from_rows c (row ∷ rows) ≡ ok items
    → (e : SessionEvent) × (es : List SessionEvent) × (event_from_row c row ≡ ok e)
      × (events_from_rows c rows ≡ ok es)
      × (items ≡ e ∷ es)
unfolding events_from_rows
events_cons c row rows h = ground arith

last_events :
    (c : Context) (d : ℕ) (rows : List Row) (items : List SessionEvent)
    → events_from_rows c rows ≡ ok items
    → last_sequence_or d items ≡ last_row d rows
unfolding last_sequence_or
last_events c d [] items h = unfold events_from_rows in ground arith
last_events c d (row ∷ rows) items h =
    let (e, es, p, q, same) = events_cons c row rows h in
    ap (last_sequence_or d) same
    ∙ (last_events c e.sequence rows es q ∙ ap (λ n. last_row n rows) (event_sequence c row e p))

events_append :
    (c : Context) (xs ys : List Row) (before rest : List SessionEvent)
    → events_from_rows c xs ≡ ok before
    → events_from_rows c ys ≡ ok rest
    → events_from_rows c (xs ++ ys) ≡ ok (before ++ rest)
unfolding events_from_rows
events_append c [] ys before rest h k = ground arith
events_append c (x ∷ xs) ys before rest h k =
    let (e, es, p, q, same) = events_cons c x xs h in
    let more = events_append c xs ys es rest q k in ground (arith, p, more, same)

length-events :
    (c : Context) (rows : List Row) (items : List SessionEvent)
    → events_from_rows c rows ≡ ok items
    → length items ≡ length rows
length-events c [] items h = unfold events_from_rows in ground arith
length-events c (row ∷ rows) items h =
    let (e, es, p, q, same) = events_cons c row rows h in
    ap length same ∙ ap suc (length-events c rows es q)

take-take : {A : Type 0} (n : ℕ) (xs : List A) → take n (take (suc n) xs) ≡ take n xs
take-take zero xs = refl
take-take (suc n) [] = refl
take-take (suc n) (x ∷ xs) = ap (λ l. x ∷ l) (take-take n xs)

drop_all : {A : Type 0} (n : ℕ) (xs : List A) → length xs ≤ n → drop n xs ≡ []
drop_all zero [] h = refl
drop_all zero (x ∷ xs) h = absurd (omega arith)
drop_all (suc n) [] h = refl
drop_all (suc n) (x ∷ xs) h = drop_all n xs (omega arith)

-- what a page that was returned holds
page_ok :
    (cursor : ℕ) (more : Bool) (r : Result Error (List SessionEvent)) {page : ReplayPage}
    → page_of cursor more r ≡ ok page
    → (r ≡ ok page.items)
      × (page.next_cursor ≡ last_sequence_or cursor page.items)
      × (page.has_more ≡ more)
page_ok cursor more (ok items) h = ground arith
page_ok cursor more (raised e) h = ground arith

replay_ok :
    (c : Context) (cursor limit : ℕ) (db : Db) {page : ReplayPage}
    → replay c cursor limit db ≡ ok page
    → (1 ≤ limit)
      × (page_of cursor
            (ltb limit (length (take (limit + 1) (rows_after cursor db.events))))
            (events_from_rows c (take limit (take (limit + 1) (rows_after cursor db.events))))
          ≡ ok page)
unfolding replay
replay_ok c cursor limit db h = ground arith

no_rest :
    (c : Context) (limit : ℕ) (rows : List Row) (rest : List SessionEvent)
    → events_from_rows c (drop limit rows) ≡ ok rest
    → ltb limit (length (take (limit + 1) rows)) ≡ false
    → rest ≡ []
no_rest c limit rows rest h small =
    let short : length rows ≤ limit = ground (arith, length-take (limit + 1) rows) in
    let none' = subst (λ l. events_from_rows c l ≡ ok rest) (drop_all limit rows short) h in
    unfold events_from_rows in ground (arith, none')

take_page : {A : Type 0} (n : ℕ) (xs : List A) → take n (take (n + 1) xs) ≡ take n xs
take_page n xs = simp towards_suc (take-take n xs)

-- The rows behind a page are those that it leaves.
rows_behind :
    (cursor limit : ℕ) (db : Db)
    → IsValid db
    → rows_after (last_row cursor (take limit (rows_after cursor db.events))) db.events
      ≡ drop limit (rows_after cursor db.events)
rows_behind cursor limit db valid =
    let rows = rows_after cursor db.events in
    let up =
      rows_after-Ascending 0 db.events cursor
        (Ascending-of_Increasing 0 db.events db.last_sequence valid.ordered) in
    sym (
      rows_after-rows_after cursor (last_row cursor (take limit rows)) db.events
        (last_row-ge limit cursor rows up))
    ∙ rows_after-last_row limit cursor rows up

abbrev empty : List Row
empty = []

last_row-gt :
    (n low : ℕ) (rows : List Row)
    → Ascending low rows
    → 1 ≤ n
    → n < length (take (n + 1) rows)
    → low < last_row low (take n rows)
last_row-gt zero low rows h p q = absurd (omega arith)
last_row-gt (suc n) low [] h p q = absurd (omega (arith, length-take (suc n + 1) empty))
last_row-gt (suc n) low (row ∷ rows) h p q = omega (arith, last_row-ge n row.sequence rows h.1, h.0)

-- The flag of a page says whether rows are left, and with rows left the cursor moves.
moves :
    (c : Context) (cursor limit : ℕ) (rows : List Row) (page : ReplayPage)
    (rest : List SessionEvent)
    → Ascending cursor rows
    → 1 ≤ limit
    → page.next_cursor ≡ last_row cursor (take limit rows)
    → events_from_rows c (drop limit rows) ≡ ok rest
    → page.has_more ≡ ltb limit (length (take (limit + 1) rows))
    → (page.has_more ≡ false) × (rest ≡ []) ⊎ (page.has_more ≡ true) × (cursor < page.next_cursor)
moves c cursor limit rows page rest up positive next left more =
    elim (Bool-cases (ltb limit (length (take (limit + 1) rows)))) [
      | inl again ↦
          inr (more ∙ again, rw next (last_row-gt limit cursor rows up positive (ltb→lt _ _ again)))
      | inr last ↦ inl (more ∙ last, no_rest c limit rows rest left last)
    ]

-- A page that `replay` returns on a valid database, where the rows after its `next_cursor` can be
-- decoded: it has at most `limit` events; the page and all that comes after its `next_cursor` are
-- together, in this order, all that comes after the cursor; and either `has_more` is false and nothing
-- comes after `next_cursor`, or it is true and the cursor has moved on.
pub replay_page :
    (c : Context) (cursor limit : ℕ) (db : Db) (page : ReplayPage) (rest : List SessionEvent)
    → IsValid db
    → replay c cursor limit db ≡ ok page
    → events_from_rows c (rows_after page.next_cursor db.events) ≡ ok rest
    → (length page.items ≤ limit)
      × (events_from_rows c (rows_after cursor db.events) ≡ ok (page.items ++ rest))
      × ((page.has_more ≡ false) × (rest ≡ [])
          ⊎ (page.has_more ≡ true) × (cursor < page.next_cursor))
replay_page c cursor limit db page rest valid h k =
    let rows = rows_after cursor db.events in
    let (positive, built) = replay_ok c cursor limit db h in
    let (read', next', more) = page_ok cursor _ _ built in
    let up =
      rows_after-Ascending 0 db.events cursor
        (Ascending-of_Increasing 0 db.events db.last_sequence valid.ordered) in
    let read : events_from_rows c (take limit rows) ≡ ok page.items =
      subst (λ l. events_from_rows c l ≡ ok page.items) (take_page limit rows) read' in
    let next : page.next_cursor ≡ last_row cursor (take limit rows) =
      next' ∙ last_events c cursor (take limit rows) page.items read in
    let behind : rows_after page.next_cursor db.events ≡ drop limit rows =
      ap (λ n. rows_after n db.events) next ∙ rows_behind cursor limit db valid in
    let left : events_from_rows c (drop limit rows) ≡ ok rest =
      subst (λ l. events_from_rows c l ≡ ok rest) behind k in
    (
      omega (arith, length-events c (take limit rows) page.items read, length-take limit rows),
      subst (λ l. events_from_rows c l ≡ ok (page.items ++ rest)) (take-append-drop limit rows)
          (events_append c (take limit rows) (drop limit rows) page.items rest read left),
      moves c cursor limit rows page rest up positive next left more,
    )
