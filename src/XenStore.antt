-- ===== src/XenStore.antt =====
-- XenStore, through which the guest driver sends its reports to the daemon. It is not part of the
-- repository: `XenStore` holds its operations, as the drivers' xenbus calls and the daemon's handle
-- `xs` offer them, and `IsLawful` what is documented of them. A path is a text with `/` between the
-- names. The operations of a transaction take effect together, or not at all if it does not commit.
use maitland.Base.{
  ℕ, ◌+◌, ◌≡◌, refl, Bool, true, false, if◌then◌else◌, Option, none, some, List, [], ◌∷◌, ◌++◌,
  Text, text_eq, has, ◌||◌, ◌&&◌, not, All,
}

-- The path of a node in a directory.
abbrev pub join : Text → Text → Text
join dir node = dir ++ (b'/' ∷ node)

pub record XenStore : Type 1 where
  pub State : Type 0
  pub read : State → Text → Option Text
  pub write : State → Text → Text → State
  pub mkdir : State → Text → State
  pub rm : State → Text → State
  pub ls : State → Text → Option (List Text)

abbrev pub has_text : Text → List Text → Bool
has_text n [] = false
has_text n (m ∷ ms) = text_eq m n || has_text n ms

abbrev pub is_some {ℓ} : {A : Type ℓ} → Option A → Bool
is_some none = false
is_some (some a) = true

-- A new directory is empty, and an old one stays as it is.
abbrev pub made : Option Text → Option Text
made none = some []
made (some v) = some v

pub made-some : (o : Option Text) → is_some (made o) ≡ true
made-some none = refl
made-some (some v) = refl

pub if-made :
    (b : Bool) (o : Option Text) → is_some o ≡ true → is_some (if b then made o else o) ≡ true
if-made true none h = refl
if-made true (some v) h = refl
if-made false o h = h

pub record IsLawful (x : XenStore) : Type 0 where
  -- what was written or made is there, whether the directory was or not, and the rest stays
  pub write_own :
      (s : x.State) (path value : Text) → x.read (x.write s path value) path ≡ some value
  pub mkdir_own : (s : x.State) (path : Text) → is_some (x.read (x.mkdir s path) path) ≡ true
  pub mkdir_kept :
      (s : x.State) (path other : Text)
      → is_some (x.read s other) ≡ true
      → is_some (x.read (x.mkdir s path) other) ≡ true
  -- a write, or a new directory, in a directory that exists
  pub read-write :
      (s : x.State) (dir node value path : Text)
      → is_some (x.read s dir) ≡ true
      → x.read (x.write s (join dir node) value) path
        ≡ (if text_eq (join dir node) path then some value else x.read s path)
  pub read-mkdir :
      (s : x.State) (dir node path : Text)
      → is_some (x.read s dir) ≡ true
      → x.read (x.mkdir s (join dir node)) path
        ≡ (if text_eq (join dir node) path then made (x.read s path) else x.read s path)
  -- a directory lists the names of its nodes, in which there is no `/`
  pub ls-read :
      (s : x.State) (dir : Text)
      → is_some (x.read s dir) ≡ true
      → (names : List Text) × (x.ls s dir ≡ some names)
        × All (λ node. has b'/' node ≡ false) names
        × ((node : Text)
            → has b'/' node ≡ false
            → has_text node names ≡ (not (text_eq node []) && is_some (x.read s (join dir node))))

-- What a transaction does, with the arguments of xenbus_mkdir and xenbus_write.
pub data Op : Type 0 where
  mkdir : Text → Text → Op
  write : Text → Text → Text → Op

module _ (x : XenStore) where
  unfoldable pub apply : Op → x.State → x.State
  apply (mkdir dir node) s = x.mkdir s (join dir node)
  apply (write dir node value) s = x.write s (join dir node) value

  unfoldable pub apply_all : List Op → x.State → x.State
  unfolding apply
  apply_all [] s = s
  apply_all (op ∷ ops) s = apply_all ops (apply op s)

  -- Transactions one after the other, of which the `i`-th commits if `commits i`.
  unfoldable pub transact : (ℕ → Bool) → ℕ → List (List Op) → x.State → x.State
  unfolding apply_all
  transact commits i [] s = s
  transact commits i (t ∷ ts) s =
      transact commits (i + 1) ts (if commits i then apply_all t s else s)
