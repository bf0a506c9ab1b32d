-- ===== src/Config/Tests.antt =====
-- Runs of the theorems about the registry and about callbacks.
use lo_netfw.Base.{ℕ, ◌≡◌, ◌≢◌, refl, Bool, true, List, [], ◌∷◌, ◌==◌, if◌then◌else◌}
use lo_netfw.Util.Text.{Text, to_lower}
use lo_netfw.Config.{empty, set_data, is_valid_param_name}
use lo_netfw.Config.Registry.{IsValid, Agrees, get_data-set_data}
use lo_netfw.Config.Data
use lo_netfw.Config.Data.{ConfigData, Change, returned, fault, add_config_data_change_cb}
use lo_netfw.Config.Data.Callbacks.{Action, add_call, del_call, act_all, all_zero, first_callback}

-- "Ab", "aB", "c", and the name of the type int.
abbrev ab : Text
ab = 65 ∷ 98 ∷ []

abbrev ab' : Text
ab' = 97 ∷ 66 ∷ []

abbrev c : Text
c = 99 ∷ []

abbrev int_type : Text
int_type = 105 ∷ []

empty-IsValid : IsValid empty
empty-IsValid key p e = absurd (cc e)

ab_ok : is_valid_param_name (to_lower ab) ≡ true
unfolding is_valid_param_name to_lower
ab_ok = refl

ab_same : to_lower ab' ≡ to_lower ab
unfolding to_lower
ab_same = refl

c_differs : to_lower c ≢ to_lower ab
unfolding to_lower
c_differs e = absurd (cc e)

get_data-set_data_example : Agrees int_type ab' int_type c empty (set_data int_type ab [] empty)
get_data-set_data_example =
    get_data-set_data int_type ab ab' [] int_type c empty empty-IsValid ab_ok ab_same c_differs

abbrev equal : ℕ → ℕ → Bool
equal a b = a == b

abbrev seven : ℕ
seven = 7

abbrev one : ConfigData ℕ ℕ
one = record { value = 1; cbs = [] }

abbrev calls : List (Action ℕ)
calls = add_call 8 ∷ del_call 1 ∷ del_call 0 ∷ []

first_callback_example :
    let (key, d) = add_config_data_change_cb seven one in
    (key ≡ 0)
    × (act_all calls d ≡ (if all_zero calls then returned tt d else fault))
    × (Data.set_data equal 2 d
        ≡ (record { cb = seven; old_data = 1; new_data = 2 } ∷ [], record d { value = 2 }))
first_callback_example = first_callback equal 1 2 seven calls refl
