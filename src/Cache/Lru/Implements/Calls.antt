-- ===== src/Cache/Lru/Implements/Calls.antt =====
-- Any sequence of calls of the cache is answered as the promise says.
use mathlib.Core.Path.{subst}
use gzv2ray_v.Prelude.{
  ℕ, none, refl, arith, [], ◌∷◌, Option, List, ◌≡◌, length, ◌≤◌, ap, map, sym, ◌∙◌, ap₂,
}
use gzv2ray_v.Cache.Lru.{Lru, new_lru, get, get_key_from_value, put}
use gzv2ray_v.Cache.Lru.Elements.{Entry, find, find_nil}
use gzv2ray_v.Cache.Lru.Implements.{Holds, Answers, pair, by_key, by_held, address_of}
use gzv2ray_v.Cache.Lru.Implements.Moves.{
  get-Answers, get_key_from_value-Answers, value_of-find, key_of-find, not_held, not_keyed,
}
use gzv2ray_v.Cache.Lru.Implements.Puts.{put-Answers}
use gzv2ray_v.Cache.Lru.Recency.{value_of, key_of, use_key, use_value, add}
use gzv2ray_v.Prelude.Dict.{lookup}

pub data Call : Type 0 where
  gets : ℕ → Call
  gets_key : ℕ → Call
  puts : ℕ → ℕ → Call

unfoldable pub call : Call → Lru → Option ℕ × Lru
call (gets k) l = get k l
call (gets_key v) l = get_key_from_value v l
call (puts k v) l = (none, put k v l)

-- What the promise says of a call.
unfoldable pub promised : ℕ → Call → List (ℕ × ℕ) → Option ℕ × List (ℕ × ℕ)
promised capacity (gets k) ps = use_key k ps
promised capacity (gets_key v) ps = use_value v ps
promised capacity (puts k v) ps = (none, add capacity k v ps)

-- A new key is put, with a new value.
abbrev pub IsNew : Call → List (ℕ × ℕ) → Type 0
IsNew (puts k v) ps = (value_of k ps ≡ none) × (key_of v ps ≡ none)
IsNew _ ps = Unit

unfoldable pub answers : List Call → Lru → List (Option ℕ)
unfolding call
answers [] l = []
answers (c ∷ calls) l = let (answer, l') = call c l in answer ∷ answers calls l'

unfoldable pub promised_answers : ℕ → List Call → List (ℕ × ℕ) → List (Option ℕ)
unfolding promised
promised_answers capacity [] ps = []
promised_answers capacity (c ∷ calls) ps =
    let (answer, ps') = promised capacity c ps in answer ∷ promised_answers capacity calls ps'

abbrev pub AreNew : ℕ → List Call → List (ℕ × ℕ) → Type 0
AreNew capacity [] ps = Unit
AreNew capacity (c ∷ calls) ps = IsNew c ps × AreNew capacity calls (promised capacity c ps).1

-- A call of a cache that holds these entries is answered, and changes them, as the promise says.
pub call-Answers :
    (c : Call) (l : Lru) (es : List Entry)
    → Holds l es
    → length es ≤ l.capacity
    → IsNew c (map pair es)
    → Answers (call c l) (promised l.capacity c (map pair es)) l.capacity
unfolding call promised
call-Answers (gets k) l es v r n = get-Answers l es v r k
call-Answers (gets_key x) l es v r n = get_key_from_value-Answers l es v r x
call-Answers (puts k x) l es v r (new_key, new_value) =
    put-Answers l es v r k x (not_held (find by_key k es) (sym (value_of-find k es) ∙ new_key))
      (not_keyed (find by_held x es) (sym (key_of-find x es) ∙ new_value))

run_from :
    (calls : List Call) (l : Lru) (es : List Entry) (capacity : ℕ)
    → Holds l es
    → length es ≤ l.capacity
    → l.capacity ≡ capacity
    → AreNew capacity calls (map pair es)
    → answers calls l ≡ promised_answers capacity calls (map pair es)
unfolding answers promised_answers
run_from [] l es capacity v r e n = refl
run_from (c ∷ calls) l es capacity v r e n =
    let a : Answers (call c l) (promised capacity c (map pair es)) capacity =
      subst (λ m. Answers (call c l) (promised m c (map pair es)) m) e
        (call-Answers c l es v r n.0) in
    ap₂ ◌∷◌ a.answer (
      run_from calls (call c l).1 a.entries capacity a.holds
        (omega (arith, a.bounded, a.same_capacity)) a.same_capacity
        (subst (AreNew capacity calls) (sym a.shows) n.1)
      ∙ ap (promised_answers capacity calls) a.shows)

pub new_lru-Holds : (capacity : ℕ) → Holds (new_lru capacity) []
unfolding new_lru lookup
new_lru-Holds capacity = record {
  linked = refl;
  points = tt;
  keyed = λ k. ap address_of (sym (find_nil by_key k));
  valued = λ v. ap address_of (sym (find_nil by_held v));
  addresses = tt;
  keys = tt;
  values = tt;
}

-- Of a new cache, any sequence of calls that puts only keys that are not there, with values that
-- are not there: every `Get` and `GetKeyFromValue` answers what a list of pairs does that is never
-- longer than the capacity, in which a call puts the pair that it finds or adds in front and
-- forgets what is at the end.
pub answers-promised :
    (capacity : ℕ) (calls : List Call)
    → AreNew capacity calls []
    → answers calls (new_lru capacity) ≡ promised_answers capacity calls []
unfolding new_lru
answers-promised capacity calls n =
    run_from calls (new_lru capacity) [] capacity (new_lru-Holds capacity) (omega arith) refl n
