-- ===== src/Registry/Unique.antt =====
-- The channels that are started and shut down.
use delta_gateway_chat_woot.Base.{
  ℕ, String, true, false, Bool-cases, List, [], ◌∷◌, some, All, ◌≡◌, ◌⊎◌, inl, inr, refl, arith,
}
use delta_gateway_chat_woot.Base.Dict
use delta_gateway_chat_woot.Base.Dict.{Dict}
use delta_gateway_chat_woot.Registry.{Channel, has_id, unique_from, unique_channels}

module _ {S : Type 0} where
  -- No two channels of the list are one object.
  abbrev pub HasDistinctIds : List (Channel S) → Type 0
  HasDistinctIds [] = Unit
  HasDistinctIds (c ∷ cs) = (has_id c.id cs ≡ false) × HasDistinctIds cs

  abbrev IsDisjoint : List (Channel S) → List (Channel S) → Type 0
  IsDisjoint seen cs = All (λ c. has_id c.id seen ≡ false) cs

  unique_from-fresh :
      (seen : List (Channel S)) (n : ℕ) (d : Dict (Channel S))
      → has_id n seen ≡ true
      → has_id n (unique_from seen d) ≡ false
  unfolding unique_from has_id
  unique_from-fresh seen n [] h = refl
  unique_from-fresh seen n ((k, c) ∷ d) h =
      ground (arith, unique_from-fresh seen n d h, unique_from-fresh (c ∷ seen) n d)

  unique_from-HasDistinctIds :
      (seen : List (Channel S)) (d : Dict (Channel S)) → HasDistinctIds (unique_from seen d)
  unfolding unique_from
  unique_from-HasDistinctIds seen [] = tt
  unique_from-HasDistinctIds seen ((k, c) ∷ d) = elim (Bool-cases (has_id c.id seen)) [
    | inl old ↦ rw old (unique_from-HasDistinctIds seen d)
    | inr new ↦ rw new (
      unique_from-fresh (c ∷ seen) c.id d (unfold has_id in ground arith),
      unique_from-HasDistinctIds (c ∷ seen) d,
    )
  ]

  unique_from-covers :
      (seen : List (Channel S)) (name : String) (c : Channel S) (d : Dict (Channel S))
      → Dict.get name d ≡ some c
      → (has_id c.id seen ≡ true) ⊎ (has_id c.id (unique_from seen d) ≡ true)
  unfolding unique_from has_id Dict.get
  unique_from-covers seen name c [] h = cc h
  unique_from-covers seen name c ((k, e) ∷ d) h =
      ground (arith, unique_from-covers seen name c d, unique_from-covers (e ∷ seen) name c d)

  -- Every registered channel is started and shut down exactly once, whatever the number of names
  -- under which it is registered.
  pub unique_channels_lem :
      (channels : Dict (Channel S))
      → HasDistinctIds (unique_channels channels)
        × ((name : String) (c : Channel S)
            → Dict.get name channels ≡ some c
            → has_id c.id (unique_channels channels) ≡ true)
  unfolding unique_channels
  unique_channels_lem channels = (
    unique_from-HasDistinctIds [] channels,
    λ name c h. elim (unique_from-covers [] name c channels h) [
      | inl none_seen ↦ unfold has_id in cc none_seen
      | inr there ↦ there
    ],
  )
