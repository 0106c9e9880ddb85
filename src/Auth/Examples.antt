-- ===== src/Auth/Examples.antt =====
-- Two lists of the same scopes.
use googlysync.Prelude.{◌≡◌, ◌≢◌, ◌↔◌, List, [], ◌∷◌, Memᴰ, Str, lit}
use googlysync.Auth.Scopes.{scope_string}
use googlysync.Auth.Scopes.Canonical.{scope_string-same}

abbrev once : List Str
once = lit "b" ∷ lit "a" ∷ []

abbrev often : List Str
often = lit "a" ∷ [] ∷ lit "b" ∷ lit "a" ∷ []

same : (z : Str) → z ≢ [] → Memᴰ z once ↔ Memᴰ z often
same z n = (there, back)
  where
    there : Memᴰ z once → Memᴰ z often
    there (Memᴰ.head e) = Memᴰ.tail (Memᴰ.tail (Memᴰ.head e))
    there (Memᴰ.tail (Memᴰ.head e)) = Memᴰ.head e
    there (Memᴰ.tail (Memᴰ.tail m)) = elim m [ ]

    back : Memᴰ z often → Memᴰ z once
    back (Memᴰ.head e) = Memᴰ.tail (Memᴰ.head e)
    back (Memᴰ.tail (Memᴰ.head e)) = elim (n e) [ ]
    back (Memᴰ.tail (Memᴰ.tail (Memᴰ.head e))) = Memᴰ.head e
    back (Memᴰ.tail (Memᴰ.tail (Memᴰ.tail (Memᴰ.head e)))) = Memᴰ.tail (Memᴰ.head e)
    back (Memᴰ.tail (Memᴰ.tail (Memᴰ.tail (Memᴰ.tail m)))) = elim m [ ]

scope_string-same_example : scope_string once ≡ scope_string often
scope_string-same_example = scope_string-same once often same
