-- ===== src/Config/Data/Callbacks.antt =====
-- The callbacks of a ConfigData after the first one was added.
use lo_netfw.Base.{
  ℕ, ◌≡◌, refl, sym, ap, ◌∙◌, Bool, true, false, ◌&&◌, List, [], ◌∷◌, Option, none, some, ◌==◌,
  if◌then◌else◌, if_true, if_false, Bool-cases, inl, inr,
}
use lo_netfw.Config.Data.{
  ConfigData, Outcome, returned, fault, find, set_data, add_found, add_config_data_change_cb,
  del_found, del_config_data_change_cb, get_found, get_config_data_change_cb,
}

-- The calls that add, delete and get callbacks.
pub data Action (C : Type 0) : Type 0 where
  add_call : C → Action C
  del_call : ℕ → Action C
  get_call : ℕ → Action C

-- Only the key 0 is named.
abbrev pub all_zero : {C : Type 0} → List (Action C) → Bool
all_zero [] = true
all_zero (add_call cb ∷ more) = all_zero more
all_zero (del_call key ∷ more) = (0 == key) && all_zero more
all_zero (get_call key ∷ more) = (0 == key) && all_zero more

module _ {T C : Type 0} where
  abbrev pub on_return :
      {A : Type 0}
      → Outcome A (ConfigData T C)
      → (ConfigData T C → Outcome (Unit {0}) (ConfigData T C))
      → Outcome (Unit {0}) (ConfigData T C)
  on_return (returned a d) f = f d
  on_return fault f = fault

  abbrev pub act_all : List (Action C) → ConfigData T C → Outcome (Unit {0}) (ConfigData T C)
  act_all [] d = returned tt d
  act_all (add_call cb ∷ more) d = act_all more (add_config_data_change_cb cb d).1
  act_all (del_call key ∷ more) d = on_return (del_config_data_change_cb key d) (act_all more)
  act_all (get_call key ∷ more) d = on_return (get_config_data_change_cb key d) (act_all more)

  abbrev Stays : ConfigData T C → Bool → Outcome (Unit {0}) (ConfigData T C) → Type 0
  Stays d b o = o ≡ (if b then returned tt d else fault)

  module _ (d : ConfigData T C) (cb : C) (one : d.cbs ≡ (0, cb) ∷ []) where
    find_zero : (key : ℕ) → find key d.cbs ≡ (if 0 == key then some cb else none)
    find_zero key = ap (find key) one

    add_dropped : (c : C) → add_config_data_change_cb c d ≡ (0, d)
    unfolding add_config_data_change_cb
    add_dropped c = ap (λ o. add_found c o d) (find_zero 0)

    -- A call that goes by a key, with what it does for what is found.
    by_key :
        (key : ℕ) (more : List (Action C)) (f : Option C → Outcome (Unit {0}) (ConfigData T C))
        → f (some cb) ≡ (if all_zero more then returned tt d else fault)
        → f none ≡ fault
        → Stays d ((0 == key) && all_zero more) (f (find key d.cbs))
    by_key key more f found missing = elim (Bool-cases (0 == key)) [
      | inl e ↦
          ap f (find_zero key ∙ if_true _ _ _ e)
          ∙ found
          ∙ ap (λ b. if b && all_zero more then returned tt d else fault) (sym e)
      | inr e ↦
          ap f (find_zero key ∙ if_false _ _ _ e)
          ∙ missing
          ∙ ap (λ b. if b && all_zero more then returned tt d else fault) (sym e)
    ]

    act_all-Stays : (calls : List (Action C)) → Stays d (all_zero calls) (act_all calls d)
    unfolding del_config_data_change_cb get_config_data_change_cb
    act_all-Stays [] = refl
    act_all-Stays (add_call c ∷ more) =
        ap (λ r. act_all more r.1) (add_dropped c) ∙ act_all-Stays more
    act_all-Stays (del_call key ∷ more) =
        by_key key more (λ o. on_return (del_found o d) (act_all more)) (act_all-Stays more) refl
    act_all-Stays (get_call key ∷ more) =
        by_key key more (λ o. on_return (get_found o d) (act_all more)) (act_all-Stays more) refl

  -- The first callback that is added to a ConfigData gets the key 0 and is the only one for good:
  -- after it any calls that add, delete and get callbacks leave the object as it is, unless one of
  -- them deletes or gets a key other than 0, which follows an iterator behind the last entry; and
  -- a setData of another value calls the callback once, with the old and the new value, and stores
  -- the new one.
  pub first_callback :
      (same : T → T → Bool) (old new : T) (cb : C) (calls : List (Action C))
      → same old new ≡ false
      → let (key, d) = add_config_data_change_cb cb (record { value = old; cbs = [] }) in
        (key ≡ 0)
        × (act_all calls d ≡ (if all_zero calls then returned tt d else fault))
        × (set_data same new d
            ≡ (record { cb = cb; old_data = old; new_data = new } ∷ [], record d { value = new }))
  unfolding set_data add_config_data_change_cb
  first_callback same old new cb calls differ = (
    refl,
    act_all-Stays (record { value = old; cbs = (0, cb) ∷ [] }) cb refl calls,
    if_false _ _ _ differ,
  )
