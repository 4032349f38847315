-- ===== src/VllmConfig/Arguments/Order.antt =====
-- The arguments are read in their order: a later option works on what the earlier ones made.
use aitrigram.Base.{String, ◌≡◌, refl, List, [], ◌∷◌, ◌++◌, true, false, inl, inr, Bool-cases}
use aitrigram.VllmConfig.Values.{Fields}
use aitrigram.VllmConfig.Arguments.{
  Syntax, Reading, ignored, pair, word, read, is_option, take_alone, takes_next, take_with,
  convert_from,
}

takes_next-option :
    (syntax : Syntax) (r : Reading) (next : String)
    → is_option next ≡ true
    → takes_next syntax r next ≡ false
unfolding takes_next
takes_next-option syntax ignored next o = refl
takes_next-option syntax (pair key value) next o = refl
takes_next-option syntax (word key) next o = rw o refl

-- An option cuts the arguments: what stands before it is converted first, and it and what follows
-- are then converted into that configuration.
pub convert_from-append :
    (syntax : Syntax) (config : Fields) (args rest : List String) (option : String)
    → is_option option ≡ true
    → convert_from syntax config (args ++ option ∷ rest)
      ≡ convert_from syntax (convert_from syntax config args) (option ∷ rest)
unfolding convert_from
convert_from-append syntax config [] rest option o = refl
convert_from-append syntax config (arg ∷ []) rest option o =
    rw (takes_next-option syntax (read arg) option o, convert_from) refl
convert_from-append syntax config (arg ∷ next ∷ args) rest option o =
    elim (Bool-cases (takes_next syntax (read arg) next)) [
      | inl takes ↦
          rw (takes, convert_from)
            (convert_from-append syntax (take_with syntax (read arg) next config) args rest option
              o)
      | inr not_it ↦
          rw (not_it, convert_from)
            (convert_from-append syntax (take_alone syntax (read arg) config) (next ∷ args) rest
              option o)
    ]
