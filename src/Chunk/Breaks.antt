-- ===== src/Chunk/Breaks.antt =====
-- lib/chunk.ts: the breaks between which `findBoundary` chooses, described by the units around them.
use priority_kb.Base.{
  Text, ℕ, zero, suc, ◌-◌, ◌≤◌, ◌<◌, Bool, true, false, not, ◌&&◌, Option, none, some, get_elem?,
  leb, if◌then◌else◌, is_space, ◌≡◌, ◌⊎◌, refl, arith,
}
use priority_kb.Chunk.Boundary.{unit_before, is_newline, is_white, ends_sentence, rank_at}

-- White space at a place, and none there (or the text's end).
abbrev pub White : Option ℕ → Type 0
White none = ⊥
White (some c) = is_space c ≡ true

abbrev pub NotWhite : Option ℕ → Type 0
NotWhite none = Unit
NotWhite (some c) = is_space c ≡ false

abbrev pub Stop : Option ℕ → Type 0
Stop none = ⊥
Stop (some c) = (c ≡ 46) ⊎ (c ≡ 63) ⊎ (c ≡ 33)

-- A break of a text before a unit, with its level: behind two line feeds, behind a full stop, a question
-- mark or an exclamation mark and white space, or between white space and what is none.
pub data Break (body : Text) : (offset level : ℕ) → Type 0 where
  paragraph :
      (j : ℕ)
      → get_elem? body j ≡ some 10
      → get_elem? body (suc j) ≡ some 10
      → Break body (suc (suc j)) 3
  sentence :
      (j : ℕ)
      → Stop (get_elem? body j)
      → White (get_elem? body (suc j))
      → Break body (suc (suc j)) 2
  word :
      (j : ℕ) → White (get_elem? body j) → NotWhite (get_elem? body (suc j)) → Break body (suc j) 1

before_one : (body : Text) (j : ℕ) → unit_before body (suc j) 1 ≡ get_elem? body j
unfolding unit_before
before_one body j = let e : suc j - 1 ≡ j = omega arith in ground (arith, e)

before_two : (body : Text) (j : ℕ) → unit_before body (suc (suc j)) 2 ≡ get_elem? body j
unfolding unit_before
before_two body j = let e : suc (suc j) - 2 ≡ j = omega arith in ground (arith, e)

White-is_white : (o : Option ℕ) → White o → is_white o ≡ true
unfolding is_white
White-is_white none h = absurd h
White-is_white (some c) h = h

NotWhite-is_white : (o : Option ℕ) → NotWhite o → is_white o ≡ false
unfolding is_white
NotWhite-is_white none h = refl
NotWhite-is_white (some c) h = h

Stop-ends_sentence : (o : Option ℕ) → Stop o → ends_sentence o ≡ true
unfolding ends_sentence
Stop-ends_sentence none h = absurd h
Stop-ends_sentence (some c) h = ground arith

newline-is_newline : (o : Option ℕ) → is_newline o ≡ true → o ≡ some 10
unfolding is_newline
newline-is_newline none h = cc
newline-is_newline (some c) h = let e : c ≡ 10 = ground arith in rw e refl

is_white-White : (o : Option ℕ) → is_white o ≡ true → White o
unfolding is_white
is_white-White none h = cc
is_white-White (some c) h = h

is_white-NotWhite : (o : Option ℕ) → is_white o ≡ false → NotWhite o
unfolding is_white
is_white-NotWhite none h = tt
is_white-NotWhite (some c) h = h

ends_sentence-Stop : (o : Option ℕ) → ends_sentence o ≡ true → Stop o
unfolding ends_sentence
ends_sentence-Stop none h = cc
ends_sentence-Stop (some c) h = ground arith

-- The rank from the tests of the units around an offset.
abbrev rank_of : (feed feed2 stop white here : Bool) → ℕ
rank_of feed feed2 stop white here =
    if feed && feed2 then 3 else if stop && white then 2 else if white && not here then 1 else 0

rank_at-first :
    (body : Text)
    → rank_at body 1
      ≡ rank_of
          (is_newline (get_elem? body 0))
          false
          false
          (is_white (get_elem? body 0))
          (is_white (get_elem? body 1))
unfolding rank_at unit_before is_newline ends_sentence
rank_at-first body = refl

rank_at-later :
    (body : Text) (j : ℕ)
    → rank_at body (suc (suc j))
      ≡ rank_of
          (is_newline (get_elem? body (suc j)))
          (is_newline (get_elem? body j))
          (ends_sentence (get_elem? body j))
          (is_white (get_elem? body (suc j)))
          (is_white (get_elem? body (suc (suc j))))
unfolding rank_at
rank_at-later body j =
    let late : leb 2 (suc (suc j)) ≡ true = ground arith in
    rw (before_one body (suc j), before_two body j, late) refl

-- The rank of a break's offset is at least its level.
pub Break-rank : (body : Text) (i l : ℕ) → Break body i l → (0 < l) × (l ≤ rank_at body i)
Break-rank body i l (paragraph j a b) =
    rw (rank_at-later body j, a, b) (omega arith, unfold is_newline in (omega arith))
Break-rank body i l (sentence j a b) =
    let s = Stop-ends_sentence _ a in
    let w = White-is_white _ b in (omega arith, rw (rank_at-later body j, s, w) (ground arith))
Break-rank body i l (word zero a b) =
    let w = White-is_white _ a in
    let n = NotWhite-is_white _ b in (omega arith, rw (rank_at-first body, w, n) (ground arith))
Break-rank body i l (word (suc j) a b) =
    let w = White-is_white _ a in
    let n = NotWhite-is_white _ b in (omega arith, rw (rank_at-later body j, w, n) (ground arith))

rank_of-Break :
    (body : Text) (j : ℕ) (feed feed2 stop white here : Bool)
    → is_newline (get_elem? body (suc j)) ≡ feed
    → is_newline (get_elem? body j) ≡ feed2
    → ends_sentence (get_elem? body j) ≡ stop
    → is_white (get_elem? body (suc j)) ≡ white
    → is_white (get_elem? body (suc (suc j))) ≡ here
    → 0 < rank_of feed feed2 stop white here
    → Break body (suc (suc j)) (rank_of feed feed2 stop white here)
rank_of-Break body j true true stop white here f g s w z h =
    paragraph j (newline-is_newline _ g) (newline-is_newline _ f)
rank_of-Break body j true false true true here f g s w z h =
    sentence j (ends_sentence-Stop _ s) (is_white-White _ w)
rank_of-Break body j false feed2 true true here f g s w z h =
    sentence j (ends_sentence-Stop _ s) (is_white-White _ w)
rank_of-Break body j true false false true false f g s w z h =
    word (suc j) (is_white-White _ w) (is_white-NotWhite _ z)
rank_of-Break body j false feed2 false true false f g s w z h =
    word (suc j) (is_white-White _ w) (is_white-NotWhite _ z)
rank_of-Break body j true false false true true f g s w z h = absurd (omega arith)
rank_of-Break body j false feed2 false true true f g s w z h = absurd (omega arith)
rank_of-Break body j true false true false here f g s w z h = absurd (omega arith)
rank_of-Break body j true false false false here f g s w z h = absurd (omega arith)
rank_of-Break body j false feed2 true false here f g s w z h = absurd (omega arith)
rank_of-Break body j false feed2 false false here f g s w z h = absurd (omega arith)

first-Break :
    (body : Text) (feed white here : Bool)
    → is_white (get_elem? body 0) ≡ white
    → is_white (get_elem? body 1) ≡ here
    → 0 < rank_of feed false false white here
    → Break body 1 (rank_of feed false false white here)
first-Break body true true false w z h = word 0 (is_white-White _ w) (is_white-NotWhite _ z)
first-Break body false true false w z h = word 0 (is_white-White _ w) (is_white-NotWhite _ z)
first-Break body true true true w z h = absurd (omega arith)
first-Break body false true true w z h = absurd (omega arith)
first-Break body true false here w z h = absurd (omega arith)
first-Break body false false here w z h = absurd (omega arith)

-- An offset with a rank is a break of that level.
pub rank-Break : (body : Text) (i : ℕ) → 0 < rank_at body i → Break body i (rank_at body i)
rank-Break body zero h =
    absurd (unfold rank_at unit_before is_newline ends_sentence is_white in (omega arith))
rank-Break body (suc zero) h =
    rw (rank_at-first body) (first-Break body _ _ _ refl refl (rw (rank_at-first body) at h))
rank-Break body (suc (suc j)) h =
    rw (rank_at-later body j)
      (rank_of-Break body j _ _ _ _ _ refl refl refl refl refl (rw (rank_at-later body j) at h))
