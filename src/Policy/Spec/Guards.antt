-- ===== src/Policy/Spec/Guards.antt =====
-- What the chains of tests let through, said without them: the branch's mode, the file, and what
-- the file system of the branch answers.
use mergerfs.Base.{ℕ, ◌≤◌, ◌≡◌, false, true, some, Str, arith, ◌↔◌}
use mergerfs.Branch.{Branch, eq_ro, eq_nc}
use mergerfs.Policy.Types.{View, Info, info, exists}
use mergerfs.Policy.Guard.{
  Verdict, take, create_guard, ep_create_guard, ep_action_guard, ep_action_readonly_guard,
  ep_search_avail_guard, ep_search_used_guard, on_avail, on_used,
}
use mergerfs.Policy.Every.{search_guard}
use mergerfs.Policy.Candidates.{Reasoned}

-- New files may be put on the branch: it is neither RO nor NC, its file system answers, is not
-- mounted read-only, and has the space that is asked for.
abbrev pub IsWritable : View → ℕ → Branch → Info → Type 0
IsWritable v minfreespace b i =
    (eq_ro b.mode ≡ false)
    × (eq_nc b.mode ≡ false)
    × (info v b.path ≡ some i)
    × (i.readonly ≡ false)
    × (minfreespace ≤ i.spaceavail)

-- Files of the branch may be changed: it is not RO, and its file system answers and is writable.
abbrev pub IsChangeable : View → Branch → Info → Type 0
IsChangeable v b i = (eq_ro b.mode ≡ false) × (info v b.path ≡ some i) × (i.readonly ≡ false)

pub create_guard_lem :
    (v : View) (n : ℕ) (b : Branch) (i : Info) → (create_guard v n b ≡ take i) ↔ IsWritable v n b i
unfolding create_guard
create_guard_lem v n b i = ((λ h. ground arith), λ h. ground arith)

pub ep_create_guard_lem :
    (v : View) (path : Str) (n : ℕ) (b : Branch) (i : Info)
    → (ep_create_guard v path n b ≡ take i)
      ↔ ((exists v b.path path ≡ true) × (create_guard v n b ≡ take i))
unfolding ep_create_guard
ep_create_guard_lem v path n b i = ((λ h. ground arith), λ h. ground arith)

pub ep_action_guard_lem :
    (v : View) (path : Str) (b : Branch) (i : Info)
    → (ep_action_guard v path b ≡ take i) ↔ ((exists v b.path path ≡ true) × IsChangeable v b i)
unfolding ep_action_guard
ep_action_guard_lem v path b i = ((λ h. ground arith), λ h. ground arith)

pub create_guard-Reasoned : (v : View) (n : ℕ) → Reasoned (create_guard v n)
unfolding create_guard
create_guard-Reasoned v n b = ground arith

pub ep_create_guard-Reasoned : (v : View) (path : Str) (n : ℕ) → Reasoned (ep_create_guard v path n)
unfolding ep_create_guard
ep_create_guard-Reasoned v path n b = ground arith

pub ep_action_guard-Reasoned : (v : View) (path : Str) → Reasoned (ep_action_guard v path)
unfolding ep_action_guard
ep_action_guard-Reasoned v path b = ground arith

pub ep_action_readonly_guard-Reasoned :
    (v : View) (path : Str) → Reasoned (ep_action_readonly_guard v path)
unfolding ep_action_readonly_guard
ep_action_readonly_guard-Reasoned v path b = ground arith

pub search_guard-Reasoned : (v : View) (path : Str) → Reasoned (search_guard v path)
unfolding search_guard
search_guard-Reasoned v path b = ground arith

pub ep_search_avail_guard-Reasoned :
    (v : View) (path : Str) → Reasoned (ep_search_avail_guard v path)
unfolding ep_search_avail_guard
ep_search_avail_guard-Reasoned v path b = ground arith

pub ep_search_used_guard-Reasoned : (v : View) (path : Str) → Reasoned (ep_search_used_guard v path)
unfolding ep_search_used_guard
ep_search_used_guard-Reasoned v path b = ground arith

module _ (guard : Branch → Verdict Info) (h : Reasoned guard) where
  pub on_avail-Reasoned : Reasoned (λ b. on_avail (guard b))
  unfolding on_avail
  on_avail-Reasoned b = ground (arith, h b)

  pub on_used-Reasoned : Reasoned (λ b. on_used (guard b))
  unfolding on_used
  on_used-Reasoned b = ground (arith, h b)
