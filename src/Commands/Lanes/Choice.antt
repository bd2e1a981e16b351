-- ===== src/Commands/Lanes/Choice.antt =====
-- Which lanes `runInitializeLaneHeads` of cmd/kaia-proofctl/main.go skips, and which it leaves to be
-- initialized.
use hyper_l.Base.{ℕ, ◌+◌, ◌≡◌, refl, subst, Bool, true, false, if◌then◌else◌, List, [], ◌∷◌}
use hyper_l.Base.Int.{ℤ}
use hyper_l.Chain.{done}
use hyper_l.Chain.NewSender.{Sender}
use hyper_l.Commands.{World}
use hyper_l.Commands.Sends.{IsQuiet, IsQuiet-bind, bind_done, done_injective}
use hyper_l.Commands.Lanes.{Certifier, lane_head_of, is_unset, choose_lanes}

module _ {E Key Address Node Signed Point : Type 0} (w : World E Key Address Node Signed)
    (certifier : Certifier E Node Address Point) where
  -- Each lane of the bundle, in order, is skipped if its head on the chain is set, and left to be
  -- initialized if it is not, or if existing heads are not looked at.
  pub data Split (skip_existing : Bool) (node : Node)
      : ℕ → List (ℕ × Point) → List ℕ → List (ℕ × Point) → Type 0 where
    empty : (i : ℕ) → Split skip_existing node i [] [] []
    set :
        (i lane : ℕ) (head : Point) (current : ℕ × ℕ) {lanes chosen : List (ℕ × Point)}
        {skipped : List ℕ}
        → skip_existing ≡ true
        → lane_head_of (certifier.ask_lane_head i node lane) ≡ done current
        → is_unset current ≡ false
        → Split skip_existing node (i + 1) lanes skipped chosen
        → Split skip_existing node i ((lane, head) ∷ lanes) (lane ∷ skipped) chosen
    unset :
        (i lane : ℕ) (head : Point) (current : ℕ × ℕ) {lanes chosen : List (ℕ × Point)}
        {skipped : List ℕ}
        → skip_existing ≡ true
        → lane_head_of (certifier.ask_lane_head i node lane) ≡ done current
        → is_unset current ≡ true
        → Split skip_existing node (i + 1) lanes skipped chosen
        → Split skip_existing node i ((lane, head) ∷ lanes) skipped ((lane, head) ∷ chosen)
    unasked :
        (i lane : ℕ) (head : Point) {lanes chosen : List (ℕ × Point)} {skipped : List ℕ}
        → skip_existing ≡ false
        → Split skip_existing node (i + 1) lanes skipped chosen
        → Split skip_existing node i ((lane, head) ∷ lanes) skipped ((lane, head) ∷ chosen)

  -- The choice for one lane.
  one_lane :
      (node : Node) (i lane : ℕ) (head : Point) (current : ℕ × ℕ) (lanes : List (ℕ × Point))
      (rest : List ℕ × List (ℕ × Point)) (b : Bool)
      → lane_head_of (certifier.ask_lane_head i node lane) ≡ done current
      → is_unset current ≡ b
      → Split true node (i + 1) lanes rest.0 rest.1
      → let r =
          if◌then◌else◌ {A = List ℕ × List (ℕ × Point)} b
            (rest.0, (lane, head) ∷ rest.1)
            (lane ∷ rest.0, rest.1) in
        Split true node i ((lane, head) ∷ lanes) r.0 r.1
  one_lane node i lane head current lanes rest true h e ih = unset i lane head current refl h e ih
  one_lane node i lane head current lanes rest false h e ih = set i lane head current refl h e ih

  module _ (latency : ℕ → ℤ) (confirmations : ℕ) (s : Sender Key Address Node) where
    pub choose_lanes-Split :
        (i : ℕ) (skip_existing : Bool) (lanes : List (ℕ × Point)) {r : List ℕ × List (ℕ × Point)}
        → (choose_lanes w certifier latency confirmations i skip_existing s lanes).1 ≡ done r
        → Split skip_existing s.client i lanes r.0 r.1
    unfolding choose_lanes
    choose_lanes-Split i skip_existing [] h =
        subst (λ r. Split skip_existing s.client i [] r.0 r.1) (done_injective h) (empty i)
    choose_lanes-Split i true ((lane, head) ∷ lanes) h =
        let (current, h0, h1) =
          bind_done {Signed = Signed} ([], lane_head_of (certifier.ask_lane_head i s.client lane)) _
            h in
        let (rest, h2, h3) =
          bind_done (choose_lanes w certifier latency confirmations (i + 1) true s lanes) _ h1 in
        subst (λ r. Split true s.client i ((lane, head) ∷ lanes) r.0 r.1) (done_injective h3)
          (one_lane s.client i lane head current lanes rest (is_unset current) h0 refl
            (choose_lanes-Split (i + 1) true lanes h2))
    choose_lanes-Split i false ((lane, head) ∷ lanes) h =
        let (rest, h2, h3) =
          bind_done (choose_lanes w certifier latency confirmations (i + 1) false s lanes) _ h in
        subst (λ r. Split false s.client i ((lane, head) ∷ lanes) r.0 r.1) (done_injective h3)
          (unasked i lane head refl (choose_lanes-Split (i + 1) false lanes h2))

    pub choose_lanes-IsQuiet :
        (i : ℕ) (skip_existing : Bool) (lanes : List (ℕ × Point))
        → IsQuiet (choose_lanes w certifier latency confirmations i skip_existing s lanes)
    unfolding choose_lanes
    choose_lanes-IsQuiet i skip_existing [] = refl
    choose_lanes-IsQuiet i true ((lane, head) ∷ lanes) =
        IsQuiet-bind ([], lane_head_of (certifier.ask_lane_head i s.client lane)) _ refl
          (λ current.
            IsQuiet-bind (choose_lanes w certifier latency confirmations (i + 1) true s lanes) _
              (choose_lanes-IsQuiet (i + 1) true lanes) (λ r. refl))
    choose_lanes-IsQuiet i false ((lane, head) ∷ lanes) =
        IsQuiet-bind (choose_lanes w certifier latency confirmations (i + 1) false s lanes) _
          (choose_lanes-IsQuiet (i + 1) false lanes) (λ r. refl)
