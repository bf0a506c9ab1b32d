-- ===== src/Config/Data.antt =====
-- The value of a ConfigData of config/configdata.h, and the callbacks for its changes. The type of the
-- value and `==` on it are arguments. `T` and `C` are the value and the callback.
pub mod Callbacks
use lo_netfw.Base.{
  ℕ, Bool, true, false, List, [], ◌∷◌, ◌++◌, Option, none, some, ◌==◌, if◌then◌else◌,
}

-- m_cbs, by keys that grow.
pub record ConfigData (T C : Type 0) : Type 0 where
  pub value : T
  pub cbs : List (ℕ × C)

-- A call of a callback, with the old and the new value.
pub record Change (T C : Type 0) : Type 0 where
  pub cb : C
  pub old_data : T
  pub new_data : T

-- A call returns, or uses the iterator behind the last entry.
pub data Outcome (A D : Type 0) : Type 0 where
  returned : A → D → Outcome A D
  fault : Outcome A D

abbrev pub find : {C : Type 0} → ℕ → List (ℕ × C) → Option C
find key [] = none
find key ((k, cb) ∷ more) = if k == key then some cb else find key more

-- The static `m_key` of addConfigDataChangeCB, which no line changes.
abbrev pub m_key : ℕ
m_key = 0

module _ {T C : Type 0} where
  abbrev pub changes : T → T → List (ℕ × C) → List (Change T C)
  changes old new [] = []
  changes old new ((k, cb) ∷ more) =
      record { cb = cb; old_data = old; new_data = new } ∷ changes old new more

  -- ConfigData::setData, with the calls that it makes.
  unfoldable pub set_data : (T → T → Bool) → T → ConfigData T C → List (Change T C) × ConfigData T C
  set_data same new d =
      if same d.value new then ([], d) else (changes d.value new d.cbs, record d { value = new })

  -- addConfigDataChangeCB: the key, where `return false` is 0.
  abbrev pub add_found : C → Option C → ConfigData T C → ℕ × ConfigData T C
  add_found cb (some old) d = (0, d)
  add_found cb none d = (m_key, record d { cbs = (m_key, cb) ∷ d.cbs })

  unfoldable pub add_config_data_change_cb : C → ConfigData T C → ℕ × ConfigData T C
  add_config_data_change_cb cb d = add_found cb (find m_key d.cbs) d

  -- delConfigDataChangeCB
  abbrev pub del_found : Option C → ConfigData T C → Outcome Bool (ConfigData T C)
  del_found (some cb) d = returned false d
  del_found none d = fault

  unfoldable pub del_config_data_change_cb : ℕ → ConfigData T C → Outcome Bool (ConfigData T C)
  del_config_data_change_cb key d = del_found (find key d.cbs) d

  -- getConfigDataChangeCB; `none` is an empty function.
  abbrev pub get_found : Option C → ConfigData T C → Outcome (Option C) (ConfigData T C)
  get_found (some cb) d = returned none d
  get_found none d = fault

  unfoldable pub get_config_data_change_cb :
      ℕ → ConfigData T C → Outcome (Option C) (ConfigData T C)
  get_config_data_change_cb key d = get_found (find key d.cbs) d

  -- clearConfigDataChangeCB
  unfoldable pub clear_config_data_change_cb : ConfigData T C → ConfigData T C
  clear_config_data_change_cb d = record d { cbs = [] }
