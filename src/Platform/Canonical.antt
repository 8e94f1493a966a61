-- ===== src/Platform/Canonical.antt =====
-- `hashRequest` and `canonicalize` of backend/src/platform/idempotency/store.ts. `leaf` is a null, a
-- boolean, a number or a string, by the text that JSON.stringify prints for it.
use Prim.Native.String.{String}
use Prim.Native.Char.{code}
use pstu_hackathon.Base.{
  ℕ, Bool, true, false, ◌&&◌, ◌||◌, List, [], ◌∷◌, ◌++◌, ltb, ◌==◌, if◌then◌else◌,
}
use pstu_hackathon.Shared.Text.{Text}
use pstu_hackathon.Platform.Action.{Env}

mutual
  pub data Json : Type 0 where
    undefined : Json
    leaf : Text → Json
    array : Items → Json
    object : Fields → Json

  pub data Items : Type 0 where
    nil : Items
    cons : Json → Items → Items

  pub data Fields : Type 0 where
    end : Fields
    field : Text → Json → Fields → Fields

-- `a < b` on strings: by code units
abbrev pub lt_text : Text → Text → Bool
lt_text [] [] = false
lt_text [] (d ∷ t) = true
lt_text (c ∷ s) [] = false
lt_text (c ∷ s) (d ∷ t) = ltb c d || ((c == d) && lt_text s t)

abbrev pub Member : Type 0
Member = Text × Text

-- `.sort(([a], [b]) => …)`, which is stable: a member goes before the first that has a greater key.
unfoldable pub insert_member : Member → List Member → List Member
insert_member m [] = m ∷ []
insert_member m (n ∷ ns) =
    let rest = insert_member m ns in if lt_text n.0 m.0 then n ∷ rest else m ∷ n ∷ ns

unfoldable pub sort_members : List Member → List Member
unfolding insert_member
sort_members [] = []
sort_members (m ∷ ms) = insert_member m (sort_members ms)

-- `.map(([k, v]) => `${JSON.stringify(k)}:${canonicalize(v)}`)` and `.join(',')`
unfoldable pub print_members : (Text → Text) → List Member → Text
print_members quote [] = []
print_members quote ((k, v) ∷ []) = quote k ++ (b':' ∷ v)
print_members quote ((k, v) ∷ m ∷ ms) =
    (quote k ++ (b':' ∷ v)) ++ (b',' ∷ print_members quote (m ∷ ms))

abbrev pub add_member : Text → Json → Text → List Member → List Member
add_member k undefined v ms = ms
add_member k (leaf t) v ms = (k, v) ∷ ms
add_member k (array xs) v ms = (k, v) ∷ ms
add_member k (object fs) v ms = (k, v) ∷ ms

unfoldable mutual
  pub canonicalize : (Text → Text) → Json → Text
  canonicalize quote undefined = b'n' ∷ b'u' ∷ b'l' ∷ b'l' ∷ []
  canonicalize quote (leaf t) = t
  canonicalize quote (array xs) = b'[' ∷ (join_items quote xs ++ (b']' ∷ []))
  canonicalize quote (object fs) =
      b'{' ∷ (print_members quote (sort_members (members quote fs)) ++ (b'}' ∷ []))

  -- `value.map(canonicalize).join(',')`
  pub join_items : (Text → Text) → Items → Text
  join_items quote nil = []
  join_items quote (cons x nil) = canonicalize quote x
  join_items quote (cons x (cons y ys)) =
      canonicalize quote x ++ (b',' ∷ join_items quote (cons y ys))

  -- the entries that are not undefined
  pub members : (Text → Text) → Fields → List Member
  members quote end = []
  members quote (field k v fs) = add_member k v (canonicalize quote v) (members quote fs)

abbrev pub codes : String → Text
codes String.[] = []
codes (String.◌∷◌ c s) = code c ∷ codes s

unfoldable pub hash_request : Env → Text → Json → ℕ
hash_request env endpoint body = env.sha256 (endpoint ++ (10 ∷ canonicalize env.quote body))
