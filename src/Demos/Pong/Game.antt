-- ===== src/Demos/Pong/Game.antt =====
-- The update of demos/Pong/src/Game.cpp, and its handler of the server's packets. Which keys are down is an argument, as is
-- whether the scenegraph finds an entity named "Paddle 2". What the handlers log is left out.
use enki_net.Common.{ℕ, Bool, not, ◌&&◌, List, [], ◌∷◌, ◌==◌, if◌then◌else◌, Outcome, ok, ◌>>=◌}
use enki_net.Packet.{empty, type_code, connected}
use enki_net.NetworkManager.{NetworkState, is_some}
use enki_net.Demos.Scalar.{Request, creation}
use enki_net.Demos.Start.{press}
use enki_net.Demos.Pong.Paddle.{paddle_1, paddle_2}

-- "Paddle", "Ball" and "Score"
abbrev pub paddle_type : List ℕ
paddle_type = 80 ∷ 97 ∷ 100 ∷ 100 ∷ 108 ∷ 101 ∷ []

abbrev pub ball_type : List ℕ
ball_type = 66 ∷ 97 ∷ 108 ∷ 108 ∷ []

abbrev pub score_type : List ℕ
score_type = 83 ∷ 99 ∷ 111 ∷ 114 ∷ 101 ∷ []

-- What a host creates.
abbrev pub hosted : List Request
hosted =
    creation paddle_type paddle_1 0 empty
    ∷ creation ball_type ball_type 0 empty
    ∷ creation score_type score_type 0 empty
    ∷ []

-- The keys S and C, as long as there is neither a server nor a client.
unfoldable pub update : Bool → Bool → NetworkState → Outcome (NetworkState × List Request)
unfolding press
update s c n =
    let started = (press s c n >>= λ n'. ok (n', if s then hosted else [])) in
    if not (is_some n.server) && not (is_some n.client) then started else ok (n, [])

-- The handler of the server's packets: the first client that connects gets the second paddle.
unfoldable pub on_packet_received : Bool → ℕ → ℕ → List Request
on_packet_received found type sender =
    if (type == type_code connected) && not found
    then creation paddle_type paddle_2 sender empty ∷ []
    else []

-- The key F1 switches the network_send_rate.
unfoldable pub switch_rate : ℕ → ℕ
switch_rate rate = if rate == 10 then 60 else 10
