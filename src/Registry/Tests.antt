-- ===== src/Registry/Tests.antt =====
-- Runs of the registry.
use veil_server_v.Prelude.{ℕ, zero, suc, ◌≡◌, refl, true, none, some, List, [], ◌∷◌, ok}
use veil_server_v.Admin.{Auth}
use veil_server_v.Registry.{Account, State, register, keys_of}
use veil_server_v.Registry.Published.{Published, last_event, register-Published}

abbrev key : ℕ → ℕ → List ℕ
key zero b = []
key (suc n) b = b ∷ key n b

abbrev account : Account
account = record { owner = 7; encryption_key = key 32 1; note_key = key 32 2 }

abbrev nothing : State
nothing = record { registrations = λ a. none; events = [] }

abbrev all_may : Auth
all_may = λ a. true

nothing-Published : Published nothing
unfolding last_event
nothing-Published a = refl

register-Published_example :
    (t : State) × (register all_may account nothing ≡ ok t)
    × (t.registrations 7 ≡ some (keys_of account))
    × Published t
register-Published_example =
    register-Published all_may account nothing nothing-Published refl refl refl
