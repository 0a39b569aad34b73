-- ===== src/Generator/Environment.antt =====
-- `std::map` of texts, as the list of its entries in the order of their keys, and the line of a
-- unit that writes it out.
use systemd_cron.Base.{
  List, [], ◌∷◌, ◌++◌, Option, none, some, if◌then◌else◌, Bytes, codes, equal, less, contains,
}

abbrev pub Environment : Type 0
Environment = List (Bytes × Bytes)

unfoldable pub find : Bytes → Environment → Option Bytes
find k [] = none
find k ((l, w) ∷ env) = if equal l k then some w else find k env

-- `env[k] = v`.
unfoldable pub assign : Bytes → Bytes → Environment → Environment
assign k v [] = (k, v) ∷ []
assign k v ((l, w) ∷ env) =
    if equal l k
    then (k, v) ∷ env
    else if less k l
    then (k, v) ∷ (l, w) ∷ env
    else (l, w) ∷ assign k v env

-- `env.emplace(k, v)`, which leaves an entry that is there alone.
unfoldable pub emplace_entry : Bytes → Bytes → Environment → Environment
unfolding find assign
emplace_entry k v env = elim (find k env) [ none ↦ assign k v env | some w ↦ env ]

-- `env.erase(k)`.
unfoldable pub erase : Bytes → Environment → Environment
erase k [] = []
erase k ((l, w) ∷ env) = if equal l k then env else (l, w) ∷ erase k env

abbrev entry : Bytes × Bytes → Bytes
entry (k, v) =
    let quote = if contains b' ' v then codes "\"" else [] in quote ++ k ++ codes "=" ++ v ++ quote

unfoldable pub environment_write : Environment → Bytes
environment_write [] = []
environment_write (e ∷ []) = entry e
environment_write (e ∷ f ∷ env) = entry e ++ codes " " ++ environment_write (f ∷ env)
