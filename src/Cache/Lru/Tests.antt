-- ===== src/Cache/Lru/Tests.antt =====
-- The theorem on the cache at a concrete run.
use gzv2ray_v.Prelude.{ℕ, none, some, refl, [], ◌∷◌, List, ◌≡◌}
use gzv2ray_v.Cache.Lru.{new_lru, put, get_key_from_value}
use gzv2ray_v.Cache.Lru.Implements.Calls.{
  Call, gets, gets_key, puts, answers, promised_answers, AreNew, answers-promised,
}

-- The third pair makes the cache forget the second, since the first was used in between.
abbrev calls : List Call
calls =
    puts 1 11 ∷ puts 2 12 ∷ gets 1 ∷ puts 3 13 ∷ gets 2 ∷ gets_key 12 ∷ gets_key 11 ∷ gets 3 ∷ []

calls-AreNew : AreNew 2 calls []
unfolding gzv2ray_v.Cache.Lru.Recency.value_of gzv2ray_v.Cache.Lru.Recency.key_of
    gzv2ray_v.Cache.Lru.Implements.Calls.promised gzv2ray_v.Cache.Lru.Recency.drop_key
calls-AreNew = ((refl, refl), ((refl, refl), (tt, ((refl, refl), (tt, (tt, (tt, (tt, tt))))))))

answers-promised_example : answers calls (new_lru 2) ≡ promised_answers 2 calls []
answers-promised_example = answers-promised 2 calls calls-AreNew

calls-answers :
    answers calls (new_lru 2) ≡ none ∷ none ∷ some 11 ∷ none ∷ none ∷ none ∷ some 1 ∷ some 13 ∷ []
unfolding answers gzv2ray_v.Cache.Lru.get get_key_from_value gzv2ray_v.Prelude.Dict.lookup put
    new_lru gzv2ray_v.Prelude.Dict.insert gzv2ray_v.Cache.Lru.back gzv2ray_v.Prelude.Dict.delete
calls-answers = refl

-- A key that is put again: the new value is not found, and the old one still is.
overwritten :
    let l = put 1 12 (put 1 11 (new_lru 2)) in
    ((get_key_from_value 12 l).0 ≡ none) × ((get_key_from_value 11 l).0 ≡ some 1)
unfolding get_key_from_value gzv2ray_v.Prelude.Dict.lookup put new_lru gzv2ray_v.Prelude.Dict.insert
overwritten = (refl, refl)
