-- ===== src/Keys/Certificate/Matching.antt =====
-- src/keys/device_certificate.ts: whether a matcher lets a message of an address through.
use Prim.Native.Char.{Char, code}
use semp_ts.Common.{
  String, Bool, true, false, Option, none, some, List, [], ◌∷◌, ◌==◌, str_eq, not, ◌&&◌, ◌||◌,
  if◌then◌else◌,
}
use semp_ts.Keys.Certificate.{ScopeEntry, ScopeMatcher, or_empty, is_named, entries_of}

pub record AddressIdentity : Type 0 where
  pub address : String
  pub server : Option String

abbrev pub is_at_sign : Char → Bool
is_at_sign c = code c == 64

-- The text after the last `@`, none where there is none.
unfoldable pub after_last_at : String → Option String
after_last_at String.[] = none
after_last_at (String.◌∷◌ c s) = elim (after_last_at s) [
  | some domain ↦ some domain
  | none ↦ if is_at_sign c then some s else none
]

module _ (lower : String → String) where
  unfoldable pub peer_domain : String → String
  unfolding after_last_at
  peer_domain peer = or_empty (after_last_at peer)

  abbrev pub server_text : ScopeEntry → String
  server_text e = elim e.server [ none ↦ or_empty e.domain | some server ↦ server ]

  unfoldable pub matches_entry : AddressIdentity → ScopeEntry → Bool
  unfolding peer_domain
  matches_entry addr e =
      let peer = lower addr.address in
      let server = lower (or_empty addr.server) in
      let entry_server = lower (server_text e) in
      if str_eq e.type "user"
      then is_named e.address && str_eq (lower (or_empty e.address)) peer
      else if str_eq e.type "domain"
      then is_named e.domain && str_eq (lower (or_empty e.domain)) (peer_domain peer)
      else if str_eq e.type "server"
      then not (str_eq entry_server "")
        && ((not (str_eq server "") && str_eq entry_server server)
            || (str_eq server "" && str_eq entry_server (peer_domain peer)))
      else false

  unfoldable pub match_any : List ScopeEntry → AddressIdentity → Bool
  unfolding matches_entry
  match_any [] addr = false
  match_any (e ∷ es) addr = matches_entry addr e || match_any es addr

  unfoldable pub scope_allows_recipient : ScopeMatcher → AddressIdentity → Bool
  unfolding match_any
  scope_allows_recipient m recipient =
      if str_eq m.mode "unrestricted"
      then true
      else if str_eq m.mode "none"
      then false
      else if str_eq m.mode "restricted"
      then match_any (entries_of m.allow) recipient
      else if str_eq m.mode "denylist"
      then not (match_any (entries_of m.deny) recipient)
      else false

  unfoldable pub scope_allows_sender : ScopeMatcher → AddressIdentity → Bool
  unfolding scope_allows_recipient
  scope_allows_sender m sender = scope_allows_recipient m sender
