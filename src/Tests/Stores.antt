-- ===== src/Tests/Stores.antt =====
-- A store as a list of paths with their values, the latest first, which is lawful.
use maitland.Base.{
  ℕ, ◌≡◌, refl, sym, ap, ◌∙◌, ◌==◌, Bool, Bool-cases, true, false, not, ◌&&◌, ◌||◌, inl, inr,
  if◌then◌else◌, Option, none, some, List, [], ◌∷◌, ◌++◌, All, has, Text, text_eq, text_eq_refl,
  eq_of_text_eq, arith,
}
use maitland.XenStore.{XenStore, IsLawful, join, has_text, is_some, made, made-some, if-made}

abbrev Nodes : Type 0
Nodes = List (Text × Text)

abbrev find : Nodes → Text → Option Text
find [] path = none
find ((q, v) ∷ s) path = if text_eq q path then some v else find s path

abbrev add_node : Option Text → Text → Nodes → Nodes
add_node none path s = (path, []) ∷ s
add_node (some v) path s = s

-- What is left of a text behind a prefix.
abbrev strip : Text → Text → Option Text
strip [] t = some t
strip (c ∷ w) [] = none
strip (c ∷ w) (d ∷ t) = if c == d then strip w t else none

-- The name of a node of a directory.
abbrev name : Option Text → Option Text
name none = none
name (some []) = none
name (some (c ∷ t)) = if (c == b'/') && not (has b'/' t || text_eq t []) then some t else none

abbrev add_name : Option Text → List Text → List Text
add_name none names = names
add_name (some n) names = n ∷ names

abbrev names : Text → Nodes → List Text
names dir [] = []
names dir ((q, v) ∷ s) = add_name (name (strip dir q)) (names dir s)

abbrev is_below : Option Text → Bool
is_below none = false
is_below (some []) = true
is_below (some (c ∷ t)) = c == b'/'

abbrev removed : Nodes → Text → Nodes
removed [] path = []
removed ((q, v) ∷ s) path =
    if is_below (strip path q) then removed s path else (q, v) ∷ removed s path

abbrev listed : Option Text → List Text → Option (List Text)
listed none ns = none
listed (some v) ns = some ns

abbrev pub list_store : XenStore
list_store = record {
  State = Nodes;
  read = find;
  write = λ s path v. (path, v) ∷ s;
  mkdir = λ s path. add_node (find s path) path s;
  rm = removed;
  ls = λ s dir. listed (find s dir) (names dir s);
}

mkdir-found :
    (s : Nodes) (q path : Text)
    → find (add_node (find s q) q s) path
      ≡ (if text_eq q path then made (find s path) else find s path)
mkdir-found s q path = elim (Bool-cases (text_eq q path)) [
  | inl e ↦ rw (eq_of_text_eq q path e, text_eq_refl path) (own (find s path) refl)
  | inr e ↦ other (find s q) e ∙ ap (λ b. if b then made (find s path) else find s path) (sym e)
]
  where
    own : (o : Option Text) → find s path ≡ o → find (add_node o path s) path ≡ made o
    own none h = rw (text_eq_refl path) refl
    own (some v) h = h

    other : (o : Option Text) → text_eq q path ≡ false → find (add_node o q s) path ≡ find s path
    other none e = rw e refl
    other (some v) e = refl

abbrev is_name : Option Text → Text → Bool
is_name none node = false
is_name (some t) node = text_eq t node

strip-text_eq : (w t u : Text) → text_eq t (w ++ u) ≡ is_name (strip w t) u
strip-text_eq [] t u = refl
strip-text_eq (c ∷ w) [] u = refl
strip-text_eq (c ∷ w) (d ∷ t) u = elim (Bool-cases (c == d)) [
  | inl e ↦ let e' : (d == c) ≡ true = ground arith in rw (e, e') (strip-text_eq w t u)
  | inr e ↦ let e' : (d == c) ≡ false = ground arith in rw (e, e') refl
]

has-differs : (c : ℕ) (s t : Text) → has c s ≡ true → has c t ≡ false → text_eq s t ≡ false
has-differs c [] t h g = absurd (ground arith)
has-differs c (d ∷ s) [] h g = refl
has-differs c (d ∷ s) (e ∷ t) h g = elim (Bool-cases (d == e)) [
  | inr n ↦ rw n refl
  | inl n ↦ rw n (has-differs c s t (ground arith) (ground arith))
]

empty-differs : (s t : Text) → text_eq s [] ≡ true → text_eq t [] ≡ false → text_eq s t ≡ false
empty-differs [] [] h g = g
empty-differs [] (c ∷ t) h g = refl
empty-differs (c ∷ s) t h g = absurd (ground arith)

-- The node that a path names in a directory.
name-is_name :
    (o : Option Text) (node : Text)
    → has b'/' node ≡ false
    → text_eq node [] ≡ false
    → is_name (name o) node ≡ is_name o (b'/' ∷ node)
name-is_name none node plain there = refl
name-is_name (some []) node plain there = refl
name-is_name (some (c ∷ t)) node plain there = elim (Bool-cases (c == b'/')) [
  | inr e ↦ rw e refl
  | inl e ↦ elim (Bool-cases (has b'/' t)) [
    | inl h ↦ rw (e, h, has-differs b'/' t node h plain) refl
    | inr h ↦ elim (Bool-cases (text_eq t [])) [
      | inl g ↦ rw (e, h, g, empty-differs t node g there) refl
      | inr g ↦ rw (e, h, g) refl
    ]
  ]
]

name-plain :
    (o : Option Text) (ns : List Text)
    → All (λ node. has b'/' node ≡ false) ns
    → All (λ node. has b'/' node ≡ false) (add_name (name o) ns)
name-plain none ns h = h
name-plain (some []) ns h = h
name-plain (some (c ∷ t)) ns h = elim (Bool-cases (c == b'/')) [
  | inr e ↦ rw e h
  | inl e ↦ elim (Bool-cases (has b'/' t)) [
    | inl g ↦ rw (e, g) h
    | inr g ↦ elim (Bool-cases (text_eq t [])) [
      | inl k ↦ rw (e, g, k) h
      | inr k ↦ rw (e, g, k) (g, h)
    ]
  ]
]

names-plain : (dir : Text) (s : Nodes) → All (λ node. has b'/' node ≡ false) (names dir s)
names-plain dir [] = tt
names-plain dir ((q, v) ∷ s) = name-plain (strip dir q) (names dir s) (names-plain dir s)

name-named : (o : Option Text) → is_name (name o) [] ≡ false
name-named none = refl
name-named (some []) = refl
name-named (some (c ∷ t)) = elim (Bool-cases ((c == b'/') && not (has b'/' t || text_eq t []))) [
  | inr e ↦ rw e refl
  | inl e ↦ rw e (ground arith)
]

has_text-add_name :
    (node : Text) (o : Option Text) (ns : List Text)
    → has_text node (add_name o ns) ≡ (is_name o node || has_text node ns)
has_text-add_name node none ns = refl
has_text-add_name node (some n) ns = refl

some-or :
    (b : Bool) (v : Text) (o : Option Text) → is_some (if b then some v else o) ≡ (b || is_some o)
some-or true v o = refl
some-or false v o = refl

names-empty : (dir : Text) (s : Nodes) → has_text [] (names dir s) ≡ false
names-empty dir [] = refl
names-empty dir ((q, v) ∷ s) =
    has_text-add_name [] (name (strip dir q)) (names dir s)
    ∙ rw (name-named (strip dir q)) (names-empty dir s)

names-found :
    (dir : Text) (s : Nodes) (node : Text)
    → has b'/' node ≡ false
    → text_eq node [] ≡ false
    → has_text node (names dir s) ≡ is_some (find s (join dir node))
names-found dir [] node plain there = refl
names-found dir ((q, v) ∷ s) node plain there =
    has_text-add_name node (name (strip dir q)) (names dir s)
    ∙ ap (λ b. b || has_text node (names dir s))
        (name-is_name (strip dir q) node plain there ∙ sym (strip-text_eq dir q (b'/' ∷ node)))
    ∙ ap (λ b. text_eq q (join dir node) || b) (names-found dir s node plain there)
    ∙ sym (some-or (text_eq q (join dir node)) v (find s (join dir node)))

pub list_store-IsLawful : IsLawful list_store
list_store-IsLawful = record {
  write_own = λ s path value. rw (text_eq_refl path) refl;
  mkdir_own = λ s path.
      ap is_some (mkdir-found s path path) ∙ rw (text_eq_refl path) (made-some (find s path));
  mkdir_kept = λ s path other h.
      ap is_some (mkdir-found s path other) ∙ if-made (text_eq path other) (find s other) h;
  read-write = λ s dir node value path h. refl;
  read-mkdir = λ s dir node path h. mkdir-found s (join dir node) path;
  ls-read = λ s dir h. (
    names dir s,
    ls-some (find s dir) (names dir s) h,
    names-plain dir s,
    λ node plain. listing s dir node plain,
  );
}
  where
    ls-some : (o : Option Text) (ns : List Text) → is_some o ≡ true → listed o ns ≡ some ns
    ls-some none ns h = absurd (ground arith)
    ls-some (some v) ns h = refl

    listing :
        (s : Nodes) (dir node : Text)
        → has b'/' node ≡ false
        → has_text node (names dir s) ≡ (not (text_eq node []) && is_some (find s (join dir node)))
    listing s dir [] plain = names-empty dir s
    listing s dir (c ∷ node) plain = names-found dir s (c ∷ node) plain refl
