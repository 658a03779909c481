-- ===== src/Specification/MemberPath.antt =====
-- A member reached from a root through nested objects, the `Path` of the tree
-- (crates/specification/src/domain/ast.rs).
use Prim.Native.String.{String}
use mathlib.Core.List.{append_assoc, append-nil}
use ascetic_ddd_rust.Prelude.{ℕ, List, [], ◌∷◌, ◌++◌, ◌≡◌, refl}

pub data Root : Type 0 where
  global : Root
  item : ℕ → Root

pub record MemberPath : Type 0 where
  pub root : Root
  pub objects : List String
  pub name : String

-- `Path::new`
pub of_root : Root → String → MemberPath
of_root root name = record { root = root; objects = []; name = name }

pub of_global : String → MemberPath
of_global name = of_root global name

pub of_item : String → MemberPath
of_item name = of_root (item 0) name

pub outer : ℕ → String → MemberPath
outer up name = of_root (item up) name

pub child : MemberPath → String → MemberPath
child path name = record path { objects = path.objects ++ path.name ∷ []; name = name }

pub sibling : MemberPath → String → MemberPath
sibling path name = record path { name = name }

children : MemberPath → List String → MemberPath
children path [] = path
children path (name ∷ names) = children (child path name) names

-- `Path::dotted`, given the parts that `split('.')` yields: never none, so that the empty text is
-- the default of a part that is not there.
pub dotted : Root → List String → MemberPath
dotted root [] = of_root root ""
dotted root (first ∷ names) = children (of_root root first) names

pub names : MemberPath → List String
names path = path.objects ++ path.name ∷ []

names-children :
    (path : MemberPath) (parts : List String) → names (children path parts) ≡ names path ++ parts
unfolding names children child
names-children path [] = simp append-nil
names-children path (name ∷ parts) =
    rw (names-children (child path name) parts) (append_assoc (names path) (name ∷ []) parts)

root-children : (path : MemberPath) (parts : List String) → (children path parts).root ≡ path.root
unfolding children child
root-children path [] = refl
root-children path (name ∷ parts) = root-children (child path name) parts

names-child :
    (path : MemberPath) (name : String) → names (child path name) ≡ names path ++ name ∷ []
unfolding names child
names-child path name = refl

sibling-child :
    (path : MemberPath) (name other : String) → sibling (child path name) other ≡ child path other
unfolding sibling child
sibling-child path name other = refl

-- A dotted path names its parts in order, whatever its root, and one step down from it, or to a
-- sibling of its last step, changes the last name alone.
pub names-dotted :
    (root : Root) (first : String) (parts : List String) (name other : String)
    → (names (dotted root (first ∷ parts)) ≡ first ∷ parts)
      × ((dotted root (first ∷ parts)).root ≡ root)
      × (names (child (dotted root (first ∷ parts)) name) ≡ first ∷ parts ++ name ∷ [])
      × (sibling (child (dotted root (first ∷ parts)) name) other
          ≡ child (dotted root (first ∷ parts)) other)
unfolding dotted of_root names
names-dotted root first parts name other =
    let there = names-children (of_root root first) parts in
    (
      there,
      root-children (of_root root first) parts,
      rw (names-child, there),
      sibling-child _ name other,
    )
