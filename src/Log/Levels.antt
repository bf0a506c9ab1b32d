-- ===== src/Log/Levels.antt =====
-- Levels and their names.
use lo_netfw.Base.{
  ◌≡◌, ◌≢◌, ◌↔◌, refl, sym, ap, ◌∙◌, if◌then◌else◌, if_true, if_false, Bool-cases, inl, inr,
}
use lo_netfw.Util.Text.Dict.{same_text, same_text-eq}
use lo_netfw.Util.Text.{Text, to_upper}
use lo_netfw.Log.{
  Level, unknown, debug, info, warn, error, fatal, get_level_name, level_named, get_level_by_name,
}

-- The level that is found has the name, unless it is UNKNOWN.
level_named-name :
    (name : Text) (l : Level) → level_named name ≡ l → l ≢ unknown → name ≡ get_level_name l
level_named-name name l e known = go e
  where
    test :
        (k : Level) (rest : Level)
        → (rest ≡ l → name ≡ get_level_name l)
        → (if same_text name (get_level_name k) then k else rest) ≡ l
        → name ≡ get_level_name l
    test k rest further h = elim (Bool-cases (same_text name (get_level_name k))) [
      | inl s ↦
          same_text-eq name (get_level_name k) s ∙ ap get_level_name (sym (if_true _ _ _ s) ∙ h)
      | inr s ↦ further (sym (if_false _ _ _ s) ∙ h)
    ]

    go : level_named name ≡ l → name ≡ get_level_name l
    go =
        test debug _
          (test info _ (test warn _ (test error _ (test fatal _ (λ h. absurd (known (sym h)))))))

-- Every level is found by its name.
level_named-get_level_name : (l : Level) → level_named (get_level_name l) ≡ l
level_named-get_level_name unknown = refl
level_named-get_level_name debug = refl
level_named-get_level_name info = refl
level_named-get_level_name warn = refl
level_named-get_level_name error = refl
level_named-get_level_name fatal = refl

-- getLevelByName gives a level other than UNKNOWN exactly for the texts that are its name in upper
-- case.
get_level_by_name_iff :
    (l : Level) (str : Text)
    → l ≢ unknown
    → (get_level_by_name str ≡ l) ↔ (to_upper str ≡ get_level_name l)
unfolding get_level_by_name
get_level_by_name_iff l str known = (
  λ h. level_named-name (to_upper str) l h known,
  λ e. ap level_named e ∙ level_named-get_level_name l,
)
