-- ===== src/Settings/ControlFile/Delivery.antt =====
-- src/fuse_getxattr.cpp: what is copied of an attribute of the control file.
use mergerfs.Base.{
  ℕ, ℤ, pos, neg_of, ◌≡◌, refl, true, false, [], ◌∷◌, suc, zero, ◌⊎◌, ◌≤◌, ◌<◌, Str, Option, none,
  some, ltb, length, inl, inr, Bool-cases, arith,
}
use mergerfs.Errno.{enoattr, erange}
use mergerfs.Strings.{split}
use mergerfs.Settings.ControlFile.Write.{Timeouts, Control}
use mergerfs.Settings.ControlFile.Read.{Process, read_parts, deliver, getxattr_controlfile}

-- The three answers: the text, whole, if the buffer has room for it; its length, if the buffer is of
-- no bytes; and an error, with nothing copied.
abbrev pub IsDelivered : ℕ → ℤ × Option Str → Type 0
IsDelivered count (r, none) =
    ((count ≡ 0) × (n : ℕ) × (r ≡ pos n))
    ⊎ (r ≡ neg_of enoattr)
    ⊎ ((0 < count) × (r ≡ neg_of erange))
IsDelivered count (r, some v) = (r ≡ pos (length v)) × (length v ≤ count) × (0 < length v)

deliver_short :
    (x : ℕ) (xs : Str) (count : ℕ)
    → ltb (suc count) (length (x ∷ xs)) ≡ true
    → deliver (x ∷ xs) (suc count) ≡ (neg_of erange, none)
unfolding deliver
deliver_short x xs count h = ground arith

deliver_long :
    (x : ℕ) (xs : Str) (count : ℕ)
    → ltb (suc count) (length (x ∷ xs)) ≡ false
    → deliver (x ∷ xs) (suc count) ≡ (pos (length (x ∷ xs)), some (x ∷ xs))
unfolding deliver
deliver_long x xs count h = ground arith

deliver-IsDelivered : (t : Str) (count : ℕ) → IsDelivered count (deliver t count)
deliver-IsDelivered [] count = unfold deliver in inr (inl refl)
deliver-IsDelivered (x ∷ xs) zero = unfold deliver in inl (refl, length (x ∷ xs), refl)
deliver-IsDelivered (x ∷ xs) (suc count) = elim (Bool-cases (ltb (suc count) (length (x ∷ xs)))) [
  | inl short ↦ rw (deliver_short x xs count short) (inr (inr ((omega arith), refl)))
  | inr long ↦ rw (deliver_long x xs count long) (refl, (ground arith), (omega arith))
]

sized : (t : Str) (n : ℕ) → (deliver t 0).0 ≡ pos n → deliver t n ≡ (pos n, some t)
unfolding deliver
sized [] n h = absurd cc
sized (x ∷ xs) n h = ground arith

module _ (ts : Timeouts) (process : Process) where
  -- A read of the control file never copies more bytes than the buffer has: it copies the whole
  -- text and answers its length, or copies nothing. A read into a buffer of the length that a read
  -- into no buffer has answered copies the text.
  pub getxattr_controlfile-IsDelivered :
      (attrname : Str) (c : Control ts)
      → ((count : ℕ) → IsDelivered count (getxattr_controlfile ts process attrname count c))
        × ((n : ℕ)
            → (getxattr_controlfile ts process attrname 0 c).0 ≡ pos n
            → getxattr_controlfile ts process attrname n c
              ≡ (pos n, some (read_parts ts process (split attrname b'.') c)))
  unfolding getxattr_controlfile
  getxattr_controlfile-IsDelivered attrname c = (
    (λ count. deliver-IsDelivered (read_parts ts process (split attrname b'.') c) count),
    λ n h. sized (read_parts ts process (split attrname b'.') c) n h,
  )
