-- ===== src/Tools/Registry/Merge.antt =====
-- A tool is listed under a name with the descriptor of the tool that the name gets.
use py_tui_kairo.Common.{
  ◌≡◌, refl, sym, ap, ◌∙◌, subst, Bool, true, false, Option, none, some, List, [], ◌∷◌, ◌++◌, map,
  String, eq_iff, any_of, find, All, if_both, if◌then◌else◌, append-nil, append_assoc, arith,
}
use py_tui_kairo.Common.Dict.{Dict, get, put, contains}
use py_tui_kairo.Contracts.Errors.{KernelResult, success, failure}
use py_tui_kairo.Contracts.Tools.{ToolDescriptor}
use py_tui_kairo.Tools.Registry.{
  ToolRegistry, found, add_tools, builtin, named, setdefault, add_all, merged, or_next, get_first,
  composite,
}

module _ {Tool : Type 0} (descriptor : Tool → ToolDescriptor) where
  abbrev pub described : KernelResult Tool → Option ToolDescriptor
  described (success tool) = some (descriptor tool)
  described (failure error) = none

  -- Under each name, the registry lists the descriptor of the tool that it gives out, and nothing where it gives none.
  abbrev pub IsConsistent : ToolRegistry Tool → Type 0
  IsConsistent r = (name : String) → find (named name) r.list ≡ described (r.get name)

abbrev first : {A : Type 0} → Option A → Option A → Option A
first none o = o
first (some a) o = some a

find-append :
    {A : Type 0} (test : A → Bool) (xs : List A) (y : A)
    → find test (xs ++ y ∷ []) ≡ first (find test xs) (if test y then some y else none)
find-append test [] y = ground arith
find-append test (x ∷ xs) y = ground (arith, find-append test xs y)

any_of-find :
    {A : Type 0} (test : A → Bool) (xs : List A) (o : Option A)
    → any_of test xs ≡ true
    → first (find test xs) o ≡ find test xs
any_of-find test [] o h = ground arith
any_of-find test (x ∷ xs) o h = ground (arith, any_of-find test xs o)

first-none : {A : Type 0} (o : Option A) → first o none ≡ o
first-none none = refl
first-none (some a) = refl

first_assoc : {A : Type 0} (a b c : Option A) → first (first a b) c ≡ first a (first b c)
first_assoc none b c = refl
first_assoc (some a) b c = refl

find-cons :
    {A : Type 0} (test : A → Bool) (x : A) (xs : List A)
    → first (if test x then some x else none) (find test xs) ≡ find test (x ∷ xs)
find-cons test x xs = ground arith

find-setdefault :
    (name : String) (ds : List ToolDescriptor) (d : ToolDescriptor)
    → find (named name) (setdefault ds d)
      ≡ first (find (named name) ds) (if named name d then some d else none)
unfolding setdefault
find-setdefault name ds d =
    let late = if named name d then some d else none in
    let before = find (named name) ds in
    if_both (λ xs. find (named name) xs ≡ first before late) (any_of (named d.name) ds)
      (λ e.
        if_both (λ o. before ≡ first before o) (named name d)
          (λ same. sym (
            any_of-find (named name) ds (some d)
              (subst (λ n. any_of (named n) ds ≡ true) ((eq_iff d.name name).0 same) e)))
          (λ other. sym (first-none before)))
      (λ e. find-append (named name) ds d)

find-add_all :
    (name : String) (ds xs : List ToolDescriptor)
    → find (named name) (add_all ds xs) ≡ first (find (named name) ds) (find (named name) xs)
unfolding add_all
find-add_all name ds [] = sym (first-none (find (named name) ds))
find-add_all name ds (x ∷ xs) =
    find-add_all name (setdefault ds x) xs
    ∙ ap (λ o. first o (find (named name) xs)) (find-setdefault name ds x)
    ∙ first_assoc (find (named name) ds) (if named name x then some x else none)
        (find (named name) xs)
    ∙ ap (first (find (named name) ds)) (find-cons (named name) x xs)

module _ {Tool : Type 0} (descriptor : Tool → ToolDescriptor) where
  described-or_next :
      (a b : KernelResult Tool)
      → described descriptor (or_next a b) ≡ first (described descriptor a) (described descriptor b)
  described-or_next (success tool) b = refl
  described-or_next (failure e) b = refl

  merged-get_first :
      (name : String) (ds : List ToolDescriptor) (rs : List (ToolRegistry Tool))
      → All (IsConsistent descriptor) rs
      → find (named name) (merged ds rs)
        ≡ first (find (named name) ds) (described descriptor (get_first name rs))
  unfolding merged get_first
  merged-get_first name ds [] h = sym (first-none (find (named name) ds))
  merged-get_first name ds (r ∷ rs) h =
      merged-get_first name (add_all ds r.list) rs h.1
      ∙ ap (λ o. first o (described descriptor (get_first name rs))) (find-add_all name ds r.list)
      ∙ first_assoc (find (named name) ds) (find (named name) r.list)
          (described descriptor (get_first name rs))
      ∙ ap (λ o. first (find (named name) ds) (first o (described descriptor (get_first name rs))))
          (h.0 name)
      ∙ ap (first (find (named name) ds)) (sym (described-or_next (r.get name) (get_first name rs)))

  -- If each of the registries lists the tools that it gives out, so does the composite of them, for names that several
  -- of them have too: under each name it lists the descriptor of the tool that it gives out, and nothing where it
  -- gives none.
  pub composite-IsConsistent :
      (rs : List (ToolRegistry Tool))
      → All (IsConsistent descriptor) rs
      → IsConsistent descriptor (composite rs)
  unfolding composite
  composite-IsConsistent rs h name = merged-get_first name [] rs h

put_fresh :
    {Tool : Type 0} (k : String) (tool : Tool) (d : Dict Tool)
    → contains k d ≡ false
    → put k tool d ≡ d ++ (k, tool) ∷ []
unfolding put get
put_fresh k tool [] h = refl
put_fresh k tool ((j, u) ∷ d) h = ground (arith, put_fresh k tool d)

module _ {Tool : Type 0} (descriptor : Tool → ToolDescriptor) where
  abbrev paired : List Tool → Dict Tool
  paired ts = map (λ tool. ((descriptor tool).name, tool)) ts

  add_tools-paired :
      (d d' : Dict Tool) (ts : List Tool)
      → add_tools descriptor d ts ≡ some d'
      → d' ≡ d ++ paired ts
  unfolding add_tools
  add_tools-paired d d' [] h = ground (arith, append-nil d)
  add_tools-paired d d' (tool ∷ ts) h =
      let name = (descriptor tool).name in
      ground (
        arith,
        add_tools-paired (put name tool d) d' ts,
        put_fresh name tool d,
        append_assoc d ((name, tool) ∷ []) (paired ts),
      )

  here_or_later :
      (b : Bool) (tool : Tool) (name : String) (o : Option Tool) (rest : Option ToolDescriptor)
      → rest ≡ described descriptor (found name o)
      → first (if b then some (descriptor tool) else none) rest
        ≡ described descriptor (found name (if b then some tool else o))
  here_or_later true tool name o rest h = refl
  here_or_later false tool name o rest h = h

  paired-found :
      (ts : List Tool) (name : String)
      → find (named name) (map (λ (p : String × Tool). descriptor p.1) (paired ts))
        ≡ described descriptor (found name (get name (paired ts)))
  unfolding get
  paired-found [] name = refl
  paired-found (tool ∷ ts) name =
      let rest = find (named name) (map (λ (p : String × Tool). descriptor p.1) (paired ts)) in
      sym (
        find-cons (named name) (descriptor tool)
          (map (λ (p : String × Tool). descriptor p.1) (paired ts)))
      ∙ here_or_later (named name (descriptor tool)) tool name (get name (paired ts)) rest
          (paired-found ts name)

  paired-descriptors :
      (ts : List Tool) → map (λ (p : String × Tool). descriptor p.1) (paired ts) ≡ map descriptor ts
  paired-descriptors [] = refl
  paired-descriptors (tool ∷ ts) = ap (λ ds. descriptor tool ∷ ds) (paired-descriptors ts)

  -- A registry that is made of tools lists their descriptors in order, and each is that of the tool that it gives out
  -- under that name.
  pub builtin-IsConsistent :
      (ts : List Tool) (d : Dict Tool)
      → add_tools descriptor [] ts ≡ some d
      → ((builtin descriptor d).list ≡ map descriptor ts)
        × IsConsistent descriptor (builtin descriptor d)
  unfolding builtin
  builtin-IsConsistent ts d h =
      subst
        (λ d.
          (map (λ (p : String × Tool). descriptor p.1) d ≡ map descriptor ts)
          × ((name : String)
              → find (named name) (map (λ (p : String × Tool). descriptor p.1) d)
                ≡ described descriptor (found name (get name d))))
        (sym (add_tools-paired [] d ts h)) (paired-descriptors ts, paired-found ts)
