-- ===== src/Json.antt =====
-- The values of a message: what `json.loads` gives and `json.dumps` takes. A Python dict with text
-- keys is the list of its entries in their order; a key stands in it once. A float that the
-- program writes is given in thousandths (it rounds them to three places).
use zygisk_frida_packet_tcp.Base.{
  ℕ, ℤ, String, ◌≡◌, refl, Bool, true, false, not, Option, none, some, List, [], ◌∷◌, arith, ◌==◌,
  str_eq, eq_iff, if◌then◌else◌, pos, negsuc, map,
}

infixr 60 ◌⇒◌⨾◌
mutual
  pub data Json : Type 0 where
    null : Json
    bool : Bool → Json
    int : ℤ → Json
    milli : ℕ → Json
    str : String → Json
    arr : Items → Json
    obj : Fields → Json

  pub data Items : Type 0 where
    nil : Items
    cons : Json → Items → Items

  -- `k ⇒ v ⨾ rest` is the entry `k: v` before the others.
  pub data Fields : Type 0 where
    end : Fields
    ◌⇒◌⨾◌ : String → Json → Fields → Fields

abbrev pub nat : ℕ → Json
nat n = int (pos n)

-- `d.get(k)`: `none` if the key is missing.
unfoldable pub get? : Fields → String → Option Json
get? end k = none
get? (j ⇒ v ⨾ fs) k = if str_eq j k then some v else get? fs k

abbrev pub or_null : Option Json → Json
or_null none = null
or_null (some v) = v

-- `d.get(k)` as Python returns it.
abbrev pub get : Fields → String → Json
get fs k = or_null (get? fs k)

-- `k in d`.
abbrev pub is_some {ℓ} : {A : Type ℓ} → Option A → Bool
is_some none = false
is_some (some a) = true

abbrev pub has : Fields → String → Bool
has fs k = is_some (get? fs k)

-- `d[k] = v`: an old key keeps its place.
unfoldable pub put : Fields → String → Json → Fields
put end k v = k ⇒ v ⨾ end
put (j ⇒ w ⨾ fs) k v = if str_eq j k then j ⇒ v ⨾ fs else j ⇒ w ⨾ put fs k v

unfoldable pub keys : Fields → List String
keys end = []
keys (j ⇒ v ⨾ fs) = j ∷ keys fs

-- `bool(v)`.
unfoldable pub truthy : Json → Bool
truthy null = false
truthy (bool b) = b
truthy (int (pos n)) = not (n == 0)
truthy (int (negsuc n)) = true
truthy (milli n) = not (n == 0)
truthy (str s) = not (str_eq s "")
truthy (arr nil) = false
truthy (arr (cons v vs)) = true
truthy (obj end) = false
truthy (obj (j ⇒ v ⨾ fs)) = true

-- `a or b`.
abbrev pub or_else : Json → Json → Json
or_else a b = if truthy a then a else b

-- A list of values.
unfoldable pub items : List Json → Items
items [] = nil
items (v ∷ vs) = cons v (items vs)

abbrev pub texts : List String → Json
texts ss = arr (items (map str ss))

-- `v or {}` where a dict is expected; any other value is left to the caller's parameter.
abbrev pub fields_or_end : Json → Fields
fields_or_end (obj fs) = fs
fields_or_end _ = end

pub get?-put :
    (fs : Fields) (k j : String) (v : Json)
    → get? (put fs k v) j ≡ (if str_eq k j then some v else get? fs j)
unfolding get? put
get?-put end k j v = refl
get?-put (i ⇒ w ⨾ fs) k j v = ground (arith, eq_iff k j, eq_iff i k, eq_iff i j, get?-put fs k j v)
