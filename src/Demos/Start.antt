-- ===== src/Demos/Start.antt =====
-- How the games in demos start a host or a client, in the update of their class Game: the key S starts a host, and the key
-- C a client.
use enki_net.Common.{
  ◌≡◌, refl, Bool, true, false, ◌&&◌, ◌||◌, none, some, Outcome, ok, fault, ◌>>=◌, if◌then◌else◌,
}
use enki_net.NetworkManager.{
  NetworkState, stopped, start_host, start_client, server_host, client_host, client_standard,
}

-- The two tests on the keys, one after the other.
unfoldable pub press : Bool → Bool → NetworkState → Outcome NetworkState
unfolding start_host start_client
press s c n = (if s then start_host n else ok n) >>= λ n'. if c then start_client n' else ok n'

-- What they come to where nothing is started.
pub press-stopped :
    (s c : Bool)
    → press s c stopped ≡ (
        if s && c
        then fault
        else if s
        then ok (record { server = some server_host; client = some client_host })
        else if c
        then ok (record { server = none; client = some client_standard })
        else ok stopped)
unfolding press start_host start_client
press-stopped true true = refl
press-stopped true false = refl
press-stopped false true = refl
press-stopped false false = refl

-- One key at most: then the press succeeds, and without a key it changes nothing.
pub press-ok :
    (s c : Bool)
    → s && c ≡ false
    → (n : NetworkState) × (press s c stopped ≡ ok n) × (s || c ≡ false → n ≡ stopped)
press-ok true true h = absurd (cc h)
press-ok true false h = (
  record { server = some server_host; client = some client_host },
  press-stopped true false,
  λ e. absurd (cc e),
)
press-ok false true h = (
  record { server = none; client = some client_standard },
  press-stopped false true,
  λ e. absurd (cc e),
)
press-ok false false h = (stopped, press-stopped false false, λ e. refl)
