-- ===== src/Copy/Laws.antt =====
-- src/fs_copyfile.cpp: the loops end, and the copy is whole.
use mergerfs.Base.{
  arith, subst, ℕ, zero, suc, ◌+◌, ◌*◌, ◌≡◌, ◌≤◌, ◌<◌, refl, sym, ap, ◌∙◌, true, false, Bool-cases,
  inl, inr, List, [], ◌∷◌, ◌++◌, append-nil, append_assoc, Str, length, take, drop,
  take-append-drop, Option, some, All, ltb, leb, if◌then◌else◌,
}
use mergerfs.Copy.{
  Turn, is_empty, Ending, writen, Round, as_int, Copied, after_writen, smaller, after_read,
  copy_round, copy_loop, copyfile,
}

-- How many of the turns move something.
abbrev pub moving : List Turn → ℕ
moving [] = 0
moving (Turn.moves n ∷ turns) = suc (moving turns)
moving (_ ∷ turns) = moving turns

-- No turn is a failure.
abbrev pub Works : Turn → Type 0
Works (Turn.fails e) = ⊥
Works _ = Unit

length-drop : (n : ℕ) (s : Str) → length (drop n s) ≤ length s
length-drop zero s = omega arith
length-drop (suc n) [] = omega arith
length-drop (suc n) (c ∷ s) = omega (arith, length-drop n s)

step :
    (t dst : Str) (o : Option Ending)
    → (is_empty t ≡ false → o ≡ some (Ending.complete (dst ++ t)))
    → (if is_empty t then some (Ending.complete dst) else o) ≡ some (Ending.complete (dst ++ t))
unfolding is_empty
step [] dst o h = ap (λ d. some (Ending.complete d)) (sym (append-nil dst))
step (c ∷ t) dst o h = h refl

moved : (n : ℕ) (dst buf : Str) → (dst ++ take n buf) ++ drop n buf ≡ dst ++ buf
moved n dst buf =
    append_assoc dst (take n buf) (drop n buf) ∙ ap (λ t. dst ++ t) (take-append-drop n buf)

-- Without a failure, and with a turn that moves something for every byte, all bytes are written.
writen_complete :
    (turns : List Turn) (buf dst : Str)
    → All Works turns
    → length buf ≤ moving turns
    → is_empty buf ≡ false
    → writen turns buf dst ≡ some (Ending.complete (dst ++ buf))
unfolding writen is_empty
writen_complete turns [] dst works h e = absurd cc
writen_complete [] (c ∷ s) dst works h e = absurd (omega arith)
writen_complete (Turn.interrupted ∷ turns) (c ∷ s) dst works h e =
    writen_complete turns (c ∷ s) dst works.1 h e
writen_complete (Turn.fails x ∷ turns) (c ∷ s) dst works h e = elim works.0 [ ]
writen_complete (Turn.moves n ∷ turns) (c ∷ s) dst works h e =
    step (drop n s) (dst ++ c ∷ take n s) _ (
      writen_complete turns (drop n s) (dst ++ c ∷ take n s) works.1
        (omega (arith, length-drop n s)))
    ∙ ap (λ d. some (Ending.complete d)) (moved (suc n) dst (c ∷ s))

-- No round fails, and each of them has turns enough to write a whole buffer.
abbrev pub IsAble : ℕ → Round → Type 0
IsAble bufsize r = Works r.reading × All Works r.writing × (bufsize ≤ moving r.writing)

-- How many of the rounds read something.
abbrev pub reading : List Round → ℕ
reading [] = 0
reading (r ∷ rounds) = moving (r.reading ∷ []) + reading rounds

length-take_le : (n : ℕ) (s : Str) → length (take n s) ≤ n
length-take_le zero s = omega arith
length-take_le (suc n) [] = omega arith
length-take_le (suc n) (c ∷ s) = omega (arith, length-take_le n s)

length-take-drop : (n : ℕ) (s : Str) → length (take n s) + length (drop n s) ≡ length s
length-take-drop zero s = omega arith
length-take-drop (suc n) [] = omega arith
length-take-drop (suc n) (c ∷ s) = omega (arith, length-take-drop n s)

after_read_complete :
    (bufsize k : ℕ) (writing : List Turn) (src : Str) (total : ℕ) (dst : Str)
    (rest : Str → Option Copied)
    → All Works writing
    → bufsize ≤ moving writing
    → suc k ≤ bufsize
    → is_empty src ≡ false
    → after_read writing (take (suc k) src) total dst rest ≡ rest (dst ++ take (suc k) src)
unfolding after_read is_empty after_writen
after_read_complete bufsize k writing [] total dst rest works able h e = absurd cc
after_read_complete bufsize k writing (c ∷ s) total dst rest works able h e =
    rw (writen_complete writing (c ∷ take k s) dst works (omega (arith, length-take_le k s)) refl)
      refl

smaller-suc : (n b : ℕ) → (k : ℕ) × (smaller (suc n) (suc b) ≡ suc k) × (suc k ≤ suc b)
smaller-suc n b = elim (Bool-cases (leb (suc n) (suc b))) [
  | inl within ↦ (n, (ground arith), (ground arith))
  | inr beyond ↦ (b, (ground arith), (omega arith))
]

module _ (count b : ℕ) where
  abbrev Completes : List Round → (Str → ℕ → Str → Option Copied) → Type 0
  Completes rounds rest =
      (src : Str) (total : ℕ) (dst : Str)
      → total + length src ≡ count
      → length src ≤ reading rounds
      → rest src total dst ≡ some (as_int count, dst ++ src)

  copy_round_complete :
      (turn : Turn) (writing : List Turn) (rounds : List Round) (src : Str) (total : ℕ) (dst : Str)
      (rest : Str → ℕ → Str → Option Copied)
      → Completes rounds rest
      → Works turn
      → All Works writing
      → suc b ≤ moving writing
      → total + length src ≡ count
      → length src ≤ moving (turn ∷ []) + reading rounds
      → is_empty src ≡ false
      → copy_round (suc b) turn writing src total dst rest ≡ some (as_int count, dst ++ src)
  unfolding copy_round
  copy_round_complete Turn.interrupted writing rounds src total dst rest later w ws able all enough
        e =
      later src total dst all (omega arith)
  copy_round_complete (Turn.fails x) writing rounds src total dst rest later w ws able all enough
        e =
      elim w [ ]
  copy_round_complete (Turn.moves n) writing rounds src total dst rest later w ws able all enough
        e =
      let (k, same, within) = smaller-suc n b in
      let parts = length-take-drop (suc k) src in
      rw same (
        after_read_complete (suc b) k writing src total dst _ ws able within e
        ∙ later (drop (suc k) src) (total + length (take (suc k) src)) (dst ++ take (suc k) src)
            (omega arith) (dropped k src (omega arith) e)
        ∙ ap (λ d. some (as_int count, d)) (moved (suc k) dst src))
    where
      dropped :
          (k : ℕ) (src : Str)
          → length src ≤ suc (reading rounds)
          → is_empty src ≡ false
          → length (drop (suc k) src) ≤ reading rounds
      dropped k [] enough e = absurd (ground arith)
      dropped k (c ∷ s) enough e = omega (arith, length-drop k s)

  copy_loop_complete :
      (rounds : List Round)
      → All (IsAble (suc b)) rounds
      → Completes rounds (copy_loop count (suc b) rounds)
  unfolding copy_loop
  copy_loop_complete [] able [] total dst all enough =
      let done : ltb total count ≡ false = ground arith in
      let same : total ≡ count = omega arith in rw (done, same, append-nil dst) refl
  copy_loop_complete [] able (c ∷ s) total dst all enough = absurd (omega arith)
  copy_loop_complete (r ∷ rounds) able [] total dst all enough =
      let done : ltb total count ≡ false = ground arith in
      let same : total ≡ count = omega arith in rw (done, same, append-nil dst) refl
  copy_loop_complete (r ∷ rounds) able (c ∷ s) total dst all enough =
      let more : ltb total count ≡ true = ground arith in
      rw more (
        copy_round_complete r.reading r.writing rounds (c ∷ s) total dst
          (copy_loop count (suc b) rounds) (copy_loop_complete rounds able.1) able.0.0 able.0.1
          able.0.2 all enough (unfold is_empty in refl))

-- The copy of a file ends and is whole, and the answer is the file's size as an `int`, when no call
-- fails, blocks have at least one byte, there are as many rounds that read something as the file has
-- bytes, and every round has as many writes that move something as the buffer has bytes. Calls may
-- be interrupted, and may move less than they were asked for.
pub copyfile_complete :
    (blksize : ℕ) (rounds : List Round) (src dst : Str)
    → 0 < blksize
    → All (IsAble (16 * blksize)) rounds
    → length src ≤ reading rounds
    → copyfile (length src) blksize rounds src dst ≡ some (as_int (length src), dst ++ src)
unfolding copyfile
copyfile_complete zero rounds src dst h able enough = absurd (omega arith)
copyfile_complete (suc m) rounds src dst h able enough =
    let b : 16 * suc m ≡ suc (15 + 16 * m) = omega arith in
    rw b (
      copy_loop_complete (length src) (15 + 16 * m) rounds
        (subst (λ n. All (IsAble n) rounds) b able) src 0 dst (omega arith) enough)
