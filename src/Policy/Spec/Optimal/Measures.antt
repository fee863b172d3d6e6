-- ===== src/Policy/Spec/Optimal/Measures.antt =====
-- The measure of every branch that the policies compare, by category.
use mergerfs.Base.{ℕ, ◌≤◌, ◌≡◌, Str, arith}
use mergerfs.Branch.{Branch}
use mergerfs.StatVfs
use mergerfs.StatVfs.{u64_max, u64_mod, StatVfs}
use mergerfs.Policy.Types.{View, Category}
use mergerfs.Policy.Guard.{
  Verdict, take, create_guard, ep_create_guard, ep_action_guard, ep_search_avail_guard,
  ep_search_used_guard, on_avail, on_used,
}
use mergerfs.Policy.Candidates.{Reasoned}
use mergerfs.Policy.Spec.Guards.{
  create_guard-Reasoned, ep_create_guard-Reasoned, ep_action_guard-Reasoned,
  ep_search_avail_guard-Reasoned, ep_search_used_guard-Reasoned, on_avail-Reasoned,
  on_used-Reasoned,
}

-- The candidates of epmfs and eplfs by category, with the space available on each.
abbrev pub ep_space : View → Category → Str → ℕ → Branch → Verdict ℕ
ep_space v Category.create path n = λ b. on_avail (ep_create_guard v path n b)
ep_space v Category.action path n = λ b. on_avail (ep_action_guard v path b)
ep_space v Category.search path n = ep_search_avail_guard v path
ep_space v Category.invalid path n = ep_search_avail_guard v path

-- Those of mfs and lfs, which look for the path only if nothing is to be created.
abbrev pub space : View → Category → Str → ℕ → Branch → Verdict ℕ
space v Category.create path n = λ b. on_avail (create_guard v n b)
space v Category.action path n = ep_space v Category.action path n
space v Category.search path n = ep_space v Category.search path n
space v Category.invalid path n = ep_space v Category.invalid path n

-- The same for eplus and lus, with the space used.
abbrev pub ep_used : View → Category → Str → ℕ → Branch → Verdict ℕ
ep_used v Category.create path n = λ b. on_used (ep_create_guard v path n b)
ep_used v Category.action path n = λ b. on_used (ep_action_guard v path b)
ep_used v Category.search path n = ep_search_used_guard v path
ep_used v Category.invalid path n = ep_search_used_guard v path

abbrev pub used : View → Category → Str → ℕ → Branch → Verdict ℕ
used v Category.create path n = λ b. on_used (create_guard v n b)
used v Category.action path n = ep_used v Category.action path n
used v Category.search path n = ep_used v Category.search path n
used v Category.invalid path n = ep_used v Category.invalid path n

pub ep_space-Reasoned :
    (v : View) (cat : Category) (path : Str) (n : ℕ) → Reasoned (ep_space v cat path n)
ep_space-Reasoned v Category.create path n =
    on_avail-Reasoned (ep_create_guard v path n) (ep_create_guard-Reasoned v path n)
ep_space-Reasoned v Category.action path n =
    on_avail-Reasoned (ep_action_guard v path) (ep_action_guard-Reasoned v path)
ep_space-Reasoned v Category.search path n = ep_search_avail_guard-Reasoned v path
ep_space-Reasoned v Category.invalid path n = ep_search_avail_guard-Reasoned v path

pub space-Reasoned :
    (v : View) (cat : Category) (path : Str) (n : ℕ) → Reasoned (space v cat path n)
space-Reasoned v Category.create path n =
    on_avail-Reasoned (create_guard v n) (create_guard-Reasoned v n)
space-Reasoned v Category.action path n = ep_space-Reasoned v Category.action path n
space-Reasoned v Category.search path n = ep_space-Reasoned v Category.search path n
space-Reasoned v Category.invalid path n = ep_space-Reasoned v Category.invalid path n

pub ep_used-Reasoned :
    (v : View) (cat : Category) (path : Str) (n : ℕ) → Reasoned (ep_used v cat path n)
ep_used-Reasoned v Category.create path n =
    on_used-Reasoned (ep_create_guard v path n) (ep_create_guard-Reasoned v path n)
ep_used-Reasoned v Category.action path n =
    on_used-Reasoned (ep_action_guard v path) (ep_action_guard-Reasoned v path)
ep_used-Reasoned v Category.search path n = ep_search_used_guard-Reasoned v path
ep_used-Reasoned v Category.invalid path n = ep_search_used_guard-Reasoned v path

pub used-Reasoned : (v : View) (cat : Category) (path : Str) (n : ℕ) → Reasoned (used v cat path n)
used-Reasoned v Category.create path n =
    on_used-Reasoned (create_guard v n) (create_guard-Reasoned v n)
used-Reasoned v Category.action path n = ep_used-Reasoned v Category.action path n
used-Reasoned v Category.search path n = ep_used-Reasoned v Category.search path n
used-Reasoned v Category.invalid path n = ep_used-Reasoned v Category.invalid path n

-- A space is a 64-bit number, as the C++ type is.
pub space_bound :
    (v : View) (cat : Category) (path : Str) (n : ℕ) (b : Branch) (m : ℕ)
    → space v cat path n b ≡ take m
    → m ≤ u64_max
unfolding create_guard ep_action_guard ep_search_avail_guard on_avail StatVfs.spaceavail
space_bound v Category.create path n b m h = ground arith
space_bound v Category.action path n b m h = ground arith
space_bound v Category.search path n b m h = ground arith
space_bound v Category.invalid path n b m h = ground arith

pub ep_space_bound :
    (v : View) (cat : Category) (path : Str) (n : ℕ) (b : Branch) (m : ℕ)
    → ep_space v cat path n b ≡ take m
    → m ≤ u64_max
unfolding ep_create_guard ep_action_guard ep_search_avail_guard on_avail StatVfs.spaceavail
ep_space_bound v Category.create path n b m h = ground arith
ep_space_bound v Category.action path n b m h = ground arith
ep_space_bound v Category.search path n b m h = ground arith
ep_space_bound v Category.invalid path n b m h = ground arith
