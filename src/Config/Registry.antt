-- ===== src/Config/Registry.antt =====
-- What the registry gives for a name, in any spelling.
use lo_netfw.Base.{
  ℕ, zero, suc, ◌≡◌, ◌≢◌, refl, sym, ap, ◌∙◌, true, not, List, [], ◌∷◌, ◌++◌, Option, none, some,
  length, get_elem?, if◌then◌else◌, if_true, if_false, Bool-cases, Option-cases, inl, inr,
}
use lo_netfw.Util.Text.{Text, to_lower}
use lo_netfw.Util.Text.Dict.{
  same_text, same_text_iff, lookup, insert, lookup-insert_self, lookup-insert_ne,
}
use lo_netfw.Config.{
  ConfigDataBase, data_of, Config, cast_as, cast, set_found, set_data, get_found, get_data,
  is_valid_param_name,
}
use mathlib.Core.Path.{subst}

-- Every entry points at an object that has its name.
abbrev pub IsValid : Config → Type 0
IsValid c =
    (key : Text) (p : ℕ)
    → lookup key c.datas ≡ some p
    → (d : ConfigDataBase) × (get_elem? c.heap p ≡ some d) × (d.name ≡ key)

old_elem :
    (xs : List ConfigDataBase) (d e : ConfigDataBase) (p : ℕ)
    → get_elem? xs p ≡ some d
    → get_elem? (xs ++ e ∷ []) p ≡ some d
old_elem [] d e p h = absurd (cc h)
old_elem (x ∷ xs) d e zero h = h
old_elem (x ∷ xs) d e (suc p) h = old_elem xs d e p h

new_elem :
    (xs : List ConfigDataBase) (e : ConfigDataBase) → get_elem? (xs ++ e ∷ []) (length xs) ≡ some e
new_elem [] e = refl
new_elem (x ∷ xs) e = new_elem xs e

module _ (type_name name description : Text) (c : Config) where
  made : Config
  made = record c {
    datas = insert (to_lower name) (length c.heap) c.datas;
    heap = c.heap ++ data_of type_name name description ∷ [];
  }

  made-IsValid : IsValid c → IsValid made
  unfolding made
  made-IsValid v key p e = elim (Bool-cases (same_text key (to_lower name))) [
    | inl s ↦
        let same : key ≡ to_lower name = (same_text_iff key (to_lower name)).0 s in
        let at : length c.heap ≡ p = cc (
          sym (lookup-insert_self (to_lower name) (length c.heap) c.datas)
          ∙ ap (λ k. lookup k made.datas) (sym same)
          ∙ e) in
        (
          data_of type_name name description,
          ap (get_elem? made.heap) (sym at) ∙ new_elem c.heap _,
          sym same,
        )
    | inr s ↦
        let differ : key ≢ to_lower name =
          λ h. absurd (cc ((same_text_iff key (to_lower name)).1 h, s)) in
        let (d, at, own) =
          v key p (sym (lookup-insert_ne (to_lower name) key (length c.heap) c.datas differ) ∙ e) in
        (d, old_elem c.heap d _ p at, own)
  ]

  made_cast : cast made type_name (length c.heap) ≡ some (length c.heap)
  unfolding made
  made_cast =
      ap (cast_as type_name (length c.heap)) (new_elem c.heap _)
      ∙ if_true _ _ _ ((same_text_iff type_name type_name).1 refl)

  made_other :
      IsValid c
      → (t key : Text) → key ≢ to_lower name
      → get_found t (lookup key made.datas) made ≡ get_found t (lookup key c.datas) c
  unfolding made
  made_other v t key differ =
      ap (λ o. get_found t o made)
        (lookup-insert_ne (to_lower name) key (length c.heap) c.datas differ)
      ∙ elim (Option-cases (lookup key c.datas)) [
        | inl e ↦ rw e refl
        | inr (p, e) ↦
            let (d, at, own) = v key p e in
            ap (λ o. get_found t o made) e
            ∙ ap (cast_as t p) (old_elem c.heap d _ p at ∙ sym at)
            ∙ ap (λ o. get_found t o c) (sym e)
      ]

  get_known :
      (c' : Config) (t name' : Text)
      → is_valid_param_name (to_lower name) ≡ true
      → to_lower name' ≡ to_lower name
      → get_data t name' c' ≡ get_found t (lookup (to_lower name) c'.datas) c'
  unfolding get_data
  get_known c' t name' ok e =
      if_false _ _ _ (ap not (ap is_valid_param_name e ∙ ok))
      ∙ ap (λ k. get_found t (lookup k c'.datas) c') e

  get_other :
      (c' : Config) (t other : Text)
      → get_found t (lookup (to_lower other) c'.datas) c'
        ≡ get_found t (lookup (to_lower other) c.datas) c
      → get_data t other c' ≡ get_data t other c
  unfolding get_data
  get_other c' t other e =
      ap (λ o. if not (is_valid_param_name (to_lower other)) then none else o) e

-- What setData gives and leaves, as getData sees it under another spelling of the name, and under
-- another name.
abbrev pub Agrees : Text → Text → Text → Text → Config → Option ℕ × Config → Type 0
Agrees type_name name' t other c (o, c') =
    IsValid c' × (get_data type_name name' c' ≡ o) × (get_data t other c' ≡ get_data t other c)

module _ (type_name name name' description t other : Text) (c : Config) (v : IsValid c)
    (ok : is_valid_param_name (to_lower name) ≡ true) (same : to_lower name' ≡ to_lower name)
    (differ : to_lower other ≢ to_lower name) where
  set_found-Agrees :
      (o : Option ℕ)
      → lookup (to_lower name) c.datas ≡ o
      → Agrees type_name name' t other c (set_found type_name name description o c)
  unfolding made made_cast made_other made-IsValid
  set_found-Agrees (some p) e = (
    v,
    get_known type_name name description c c type_name name' ok same
        ∙ ap (λ o. get_found type_name o c) e,
    refl,
  )
  set_found-Agrees none e =
      let next = made type_name name description c in
      (
        made-IsValid type_name name description c v,
        get_known type_name name description c next type_name name' ok same
            ∙ ap (λ o. get_found type_name o next)
                (lookup-insert_self (to_lower name) (length c.heap) c.datas)
            ∙ made_cast type_name name description c,
        get_other type_name name description c next t other
            (made_other type_name name description c v t (to_lower other) differ),
      )

  -- In a registry whose entries point at objects that have their names, and for a name whose
  -- characters are all valid: the object that setData gives, or null for an entry of another type,
  -- is what getData of this type then gives for the name in any case; what getData of any type
  -- gives for another name stays; and the registry stays such a registry.
  pub get_data-set_data : Agrees type_name name' t other c (set_data type_name name description c)
  unfolding set_data
  get_data-set_data =
      subst (Agrees type_name name' t other c) (sym (if_false _ _ _ (ap not ok)))
        (set_found-Agrees (lookup (to_lower name) c.datas) refl)
