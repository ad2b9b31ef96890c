-- ===== src/Docker/Listing.antt =====
-- internal/agent/docker/client.go: ListAgent, the requests for events, and the texts in their URLs.
use Prim.Native.Char.{Char, code}
use pumpkin_pie.Prelude.{
  ◌≡◌, refl, ℕ, String, ◌<>◌, Bool, true, false, not, ◌||◌, ◌==◌, List, [], ◌∷◌, map, All, nat_eq,
  if◌then◌else◌, Bool-cases, inl, inr,
}
use pumpkin_pie.Prelude.Texts.{replace, trim_prefix, every, every-replace}
use pumpkin_pie.Exec.{Result, ok, err, Exec}
use pumpkin_pie.AgentMgr.Messages.{ContainerInfo, PortMapping}
use pumpkin_pie.Docker.{Engine, no_body, do_request, escaped_in_path, url_path_escape}

-- queryEscape
unfoldable pub escaped_in_query : Char → String
escaped_in_query c =
    if nat_eq (code c) b' '
    then "%20"
    else if nat_eq (code c) b'"'
    then "%22"
    else if nat_eq (code c) b'{'
    then "%7B"
    else if nat_eq (code c) b'}'
    then "%7D"
    else if nat_eq (code c) b'['
    then "%5B"
    else if nat_eq (code c) b']'
    then "%5D"
    else if nat_eq (code c) b','
    then "%2C"
    else String.◌∷◌ c ""

unfoldable pub query_escape : String → String
unfolding escaped_in_query
query_escape s = replace escaped_in_query s

-- An element of /containers/json after json.Unmarshal, a missing field being the zero value; `ports`
-- has the PrivatePort and the Type of each.
pub record Summary : Type 0 where
  pub id : String
  pub container_id : String
  pub ports : List (ℕ × String)
  pub names : List String
  pub image : String
  pub state : String
  pub status : String

unfoldable pub name_of : List String → String
unfolding trim_prefix
name_of [] = ""
name_of (name ∷ names) = trim_prefix name "/"

unfoldable pub listed_port : ℕ × String → PortMapping
listed_port (port, kind) = record { container_port = port; protocol = kind; host_port = 0 }

unfoldable pub info_of : Summary → ContainerInfo
unfolding name_of listed_port
info_of s = record {
  container_id = s.container_id;
  docker_id = s.id;
  name = name_of s.names;
  image = s.image;
  state = s.state;
  status = s.status;
  ports = map listed_port s.ports;
}

-- The containers without the master's label are left out.
unfoldable pub infos_of : List Summary → List ContainerInfo
unfolding info_of
infos_of [] = []
infos_of (s ∷ ss) =
    let rest = infos_of ss in if s.container_id == "" then rest else info_of s ∷ rest

unfoldable pub decoded_list :
    (String → Result String (List Summary))
    → Result String String
    → Result String (List ContainerInfo)
unfolding infos_of
decoded_list decode (err why) = err why
decoded_list decode (ok body) = elim (decode body) [ err why ↦ err why | ok ss ↦ ok (infos_of ss) ]

abbrev pub list_filter : String
list_filter = "{\"label\":[\"pumpkinpie.managed=true\"]}"

-- ListAgent; `decode` is json.Unmarshal
unfoldable pub list_agent :
    {D : Type 0}
    → Engine D
    → (String → Result String (List Summary))
    → Exec D String (List ContainerInfo)
unfolding decoded_list query_escape do_request
list_agent engine decode d =
    let path = "/containers/json?all=1&filters=" <> query_escape list_filter in
    let (r, d') = do_request engine "GET" path no_body d in (decoded_list decode r, d')

-- Not one of the characters that end a path, separate its parts, or that Docker would misread.
unfoldable pub is_plain : Char → Bool
is_plain c = not (
    nat_eq (code c) b' '
    || nat_eq (code c) b'"'
    || nat_eq (code c) b'#'
    || nat_eq (code c) b'?'
    || nat_eq (code c) b'@'
    || nat_eq (code c) b':')

plain_char :
    (c : Char)
    → nat_eq (code c) b' ' ≡ false
    → nat_eq (code c) b'"' ≡ false
    → nat_eq (code c) b'#' ≡ false
    → nat_eq (code c) b'?' ≡ false
    → nat_eq (code c) b'@' ≡ false
    → nat_eq (code c) b':' ≡ false
    → every is_plain (String.◌∷◌ c "") ≡ true
unfolding every is_plain
plain_char c g h k m o p = rw (g, h, k, m, o, p) refl

escaped_in_path-plain : (c : Char) → every is_plain (escaped_in_path c) ≡ true
unfolding escaped_in_path is_plain every
escaped_in_path-plain c = elim (Bool-cases (nat_eq (code c) b' ')) [
  | inl e ↦ rw e refl
  | inr g ↦ elim (Bool-cases (nat_eq (code c) b'"')) [
    | inl e ↦ rw (g, e) refl
    | inr h ↦ elim (Bool-cases (nat_eq (code c) b'#')) [
      | inl e ↦ rw (g, h, e) refl
      | inr k ↦ elim (Bool-cases (nat_eq (code c) b'?')) [
        | inl e ↦ rw (g, h, k, e) refl
        | inr m ↦ elim (Bool-cases (nat_eq (code c) b'@')) [
          | inl e ↦ rw (g, h, k, m, e) refl
          | inr o ↦ elim (Bool-cases (nat_eq (code c) b':')) [
            | inl e ↦ rw (g, h, k, m, o, e) refl
            | inr p ↦ rw (g, h, k, m, o, p) (plain_char c g h k m o p)
          ]
        ]
      ]
    ]
  ]
]

-- An image reference in the path of a request has no space, quote, `#`, `?`, `@` or `:` left, so
-- that it neither ends the path nor begins a query.
pub url_path_escape-plain : (image : String) → every is_plain (url_path_escape image) ≡ true
unfolding url_path_escape
url_path_escape-plain image = every-replace is_plain escaped_in_path image escaped_in_path-plain

-- What the poll loop is given: every container that ListAgent returns has the master's id.
pub infos_of-labelled :
    (ss : List Summary) → All (λ i. (i.container_id == "") ≡ false) (infos_of ss)
unfolding infos_of info_of
infos_of-labelled [] = tt
infos_of-labelled (s ∷ ss) = elim (Bool-cases (s.container_id == "")) [
  | inl e ↦ rw e (infos_of-labelled ss)
  | inr e ↦ rw e (e, infos_of-labelled ss)
]
