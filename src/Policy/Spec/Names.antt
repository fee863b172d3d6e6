-- ===== src/Policy/Spec/Names.antt =====
-- src/policy.cpp: names and policies correspond.
use mergerfs.Base.{◌≡◌, refl}
use mergerfs.Policy.Kind.{Kind}
use mergerfs.Policy.Table.{name, find}

-- Every policy of the table is found under its own name.
pub find-name : (k : Kind) → find (name k) ≡ k
unfolding find name
find-name Kind.invalid = refl
find-name _ = refl
