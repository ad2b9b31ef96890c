-- ===== src/Docker/Mapped.antt =====
-- internal/agent/docker/client.go: Inspect, and the port of the host that Docker gave a port of a
-- container. What json.Unmarshal and fmt.Sscanf return is a parameter.
use text.Mathlib.Text.{find?}
use Prim.Native.String.{len, slice}
use pumpkin_pie.Prelude.{
  ◌≡◌, subst, ◌∙◌, ℕ, ◌+◌, ◌%◌, ◌^◌, ◌<◌, inl, inr, String, ◌<>◌, Bool, true, false, ◌==◌, Option,
  none, some, ltb, nat_eq, if◌then◌else◌, arith, Bool-cases, Option-cases,
}
use pumpkin_pie.Prelude.Texts.{decimal}
use pumpkin_pie.Exec.{Result, ok, err, Exec}
use pumpkin_pie.Docker.{Engine, no_body, do_request}

-- A value that json.Unmarshal puts into an `any`; the entries of a map stand in the order in which
-- the loop visits them.
mutual
  pub data Value : Type 0 where
    string : String → Value
    object : Entries → Value
    array : Values → Value
    other : Value

  pub data Values : Type 0 where
    no_values : Values
    value : Value → Values → Values

  pub data Entries : Type 0 where
    no_entries : Entries
    entry : String → Value → Entries → Entries

-- The type assertions, whose `ok` the code drops.
unfoldable pub as_object : Value → Entries
as_object (object es) = es
as_object (string s) = no_entries
as_object (array vs) = no_entries
as_object other = no_entries

unfoldable pub as_array : Value → Values
as_array (array vs) = vs
as_array (string s) = no_values
as_array (object es) = no_values
as_array other = no_values

unfoldable pub as_text : Value → String
as_text (string s) = s
as_text (object es) = ""
as_text (array vs) = ""
as_text other = ""

unfoldable pub entry_at : String → Entries → Value
entry_at k no_entries = other
entry_at k (entry k' v es) = let rest = entry_at k es in if k' == k then v else rest

unfoldable pub decoded :
    (String → Result String Entries) → Result String String → Result String Entries
decoded unmarshal (err why) = err why
decoded unmarshal (ok body) = unmarshal body

unfoldable pub inspect :
    {D : Type 0} → Engine D → (String → Result String Entries) → String → Exec D String Entries
unfolding decoded do_request
inspect engine unmarshal id d =
    let (r, d') = do_request engine "GET" ("/containers/" <> id <> "/json") no_body d in
    (decoded unmarshal r, d')

unfoldable pub scanned_key : String → Option ℕ → Option (ℕ × String)
scanned_key proto none = none
scanned_key proto (some n) = some (n, proto)

-- `scan` is Sscanf with %d into an int, whose bits it returns.
unfoldable pub split_port_key : (String → Option ℕ) → String → Option (ℕ × String)
unfolding scanned_key
split_port_key scan k = elim (find? k "/") [
  | none ↦ none
  | some i ↦ scanned_key (slice k (i + 1) (len k)) (scan (slice k 0 i))
]

unfoldable pub short_id : String → String
short_id id = if ltb 12 (len id) then slice id 0 12 else id

-- The conversions: into an int, as its bits, and into a uint16.
pub record Scans : Type 0 where
  pub int : String → Option ℕ
  pub uint16 : String → Option ℕ

module _ (scans : Scans) where
  unfoldable pub host_port : Value → Option ℕ
  unfolding as_text entry_at as_object
  host_port b = scans.uint16 (as_text (entry_at "HostPort" (as_object b)))

  unfoldable pub or_next : Option ℕ → Option ℕ → Option ℕ
  or_next none rest = rest
  or_next (some p) rest = if nat_eq p 0 then rest else some p

  unfoldable pub first_bound : Values → Option ℕ
  unfolding host_port or_next
  first_bound no_values = none
  first_bound (value b bs) = or_next (host_port b) (first_bound bs)

  -- uint16(keyPort) == containerPort, where the key splits
  unfoldable pub is_key_of : ℕ → Option (ℕ × String) → Bool
  is_key_of container_port none = false
  is_key_of container_port (some (n, proto)) = nat_eq (n % 2 ^ 16) container_port

  unfoldable pub or_later : Option ℕ → Option ℕ → Option ℕ
  or_later (some p) rest = some p
  or_later none rest = rest

  unfoldable pub mapped_in : ℕ → Entries → Option ℕ
  unfolding is_key_of split_port_key first_bound as_array or_later
  mapped_in container_port no_entries = none
  mapped_in container_port (entry k v es) =
      let rest = mapped_in container_port es in
      if is_key_of container_port (split_port_key scans.int k)
      then or_later (first_bound (as_array v)) rest
      else rest

  unfoldable pub port_or_fail : String → ℕ → Option ℕ → Result String ℕ
  unfolding short_id
  port_or_fail id container_port none =
      err ("no host port mapping for " <> decimal container_port <> " in container " <> short_id id)
  port_or_fail id container_port (some p) = ok p

  unfoldable pub mapped_of : String → ℕ → Result String Entries → Result String ℕ
  unfolding mapped_in port_or_fail as_object entry_at
  mapped_of id container_port (err why) = err why
  mapped_of id container_port (ok insp) = port_or_fail id container_port (
      mapped_in container_port
        (as_object (entry_at "Ports" (as_object (entry_at "NetworkSettings" insp)))))

  unfoldable pub mapped_host_port :
      {D : Type 0} → Engine D → (String → Result String Entries) → String → ℕ → Exec D String ℕ
  unfolding inspect mapped_of
  mapped_host_port engine unmarshal id container_port d =
      let (r, d') = inspect engine unmarshal id d in (mapped_of id container_port r, d')

  -- A binding of the list has this port of the host.
  pub data Binds : ℕ → Values → Type 0 where
    here : (p : ℕ) (b : Value) (bs : Values) → host_port b ≡ some p → Binds p (value b bs)
    there : (p : ℕ) (b : Value) (bs : Values) → Binds p bs → Binds p (value b bs)

  -- A key of the map is of the port of the container, and its value has this port of the host.
  pub data Maps : ℕ → ℕ → Entries → Type 0 where
    at :
        (c p : ℕ) (k : String) (v : Value) (es : Entries)
        → is_key_of c (split_port_key scans.int k) ≡ true
        → Binds p (as_array v)
        → Maps c p (entry k v es)
    later :
        (c p : ℕ) (k : String) (v : Value) (es : Entries) → Maps c p es → Maps c p (entry k v es)

  first_bound-Binds : (bs : Values) (p : ℕ) → first_bound bs ≡ some p → (0 < p) × Binds p bs
  unfolding first_bound or_next
  first_bound-Binds no_values p h = absurd (cc h)
  first_bound-Binds (value b bs) p h = elim (Option-cases (host_port b)) [
    | inl e ↦ let (pos, in_rest) = first_bound-Binds bs p (rw e at h) in (pos, there p b bs in_rest)
    | inr (q, e) ↦ elim (Bool-cases (nat_eq q 0)) [
      | inl z ↦
          let (pos, in_rest) = first_bound-Binds bs p (rw (e, z) at h) in
          (pos, there p b bs in_rest)
      | inr z ↦
          let h' : some q ≡ some p = rw (e, z) at h in
          let same : q ≡ p = cc h' in
          (subst (λ n. 0 < n) same (ground arith), here p b bs (rw same at e))
    ]
  ]

  -- The port that is found is a port, and Docker lists it for the port of the container.
  pub mapped_in-Maps : (c p : ℕ) (es : Entries) → mapped_in c es ≡ some p → (0 < p) × Maps c p es
  unfolding mapped_in or_later
  mapped_in-Maps c p no_entries h = absurd (cc h)
  mapped_in-Maps c p (entry k v es) h =
      elim (Bool-cases (is_key_of c (split_port_key scans.int k))) [
        | inl e ↦ elim (Option-cases (first_bound (as_array v))) [
          | inl f ↦
              let (pos, m) = mapped_in-Maps c p es (rw (e, f) at h) in (pos, later c p k v es m)
          | inr (q, f) ↦
              let h' : some q ≡ some p = rw (e, f) at h in
              let (pos, m) = first_bound-Binds (as_array v) p (f ∙ h') in (pos, at c p k v es e m)
        ]
        | inr e ↦ let (pos, m) = mapped_in-Maps c p es (rw e at h) in (pos, later c p k v es m)
      ]
