-- ===== src/Sdo/Download/Acknowledged.antt =====
-- Downloads to a device that acknowledges their requests, all of them or the first few.
use canbus.Prelude.{
  ℕ, ◌<◌, ◌≡◌, refl, sym, ap, ◌∙◌, arith, true, List, [], ◌∷◌, ◌++◌, Result, ok, IsU16,
}
use mathlib.Core.List.{append-nil}
use canbus.Frame.{Frame}
use canbus.Sdo.Client.{Client, Link, continue, answered}
use canbus.Sdo.Exchange.Response.{is_response, after}
use canbus.Sdo.Exchange.Ending.{
  SettledBy, Ending, Ends, ended, bind-Ends, answered-settled, answered-Ends,
}
use canbus.Sdo.Download.{download}
use canbus.Sdo.Download.Script.{
  acknowledges, settles, send_each, script, run_script, download-script,
}

-- From the world `w` on, each of the requests is acknowledged; frames of others, and of the server
-- for others, may come before and behind it.
abbrev pub Acknowledged : {W : Type 0} → Link W → ℕ → W → List Frame → Type 0
Acknowledged link node w [] = Unit {0}
Acknowledged link node w (req ∷ reqs) =
    (rsp : Frame) × SettledBy link (settles node req) w req rsp
    × (acknowledges req rsp ≡ true)
    × Acknowledged link node (after link w req) reqs

abbrev pub after_all : {W : Type 0} → Link W → W → List Frame → W
after_all link w [] = w
after_all link w (req ∷ reqs) = after_all link (after link w req) reqs

settled_response :
    (node : ℕ) (req f : Frame) → settles node req f ≡ true → is_response node f ≡ true
settled_response node req f h = ground arith

module _ {W : Type 0} (link : Link W) (c : Client) where
  -- A request that is acknowledged is passed by.
  send_each-Acknowledged :
      (acked reqs : List Frame) (w : W)
      → Acknowledged link c.node w acked
      → send_each link c (acked ++ reqs) w ≡ send_each link c reqs (after_all link w acked)
  unfolding send_each
  send_each-Acknowledged [] reqs w h = refl
  send_each-Acknowledged (req ∷ acked) reqs w (rsp, settled, acks, more) =
      ap (continue (λ (r : Frame). send_each link c (acked ++ reqs)))
        (answered-settled link c (settles c.node req) req w rsp settled (λ p. ground arith))
      ∙ send_each-Acknowledged acked reqs (after link w req) more

  -- The first request that is not acknowledged ends the method.
  send_each-Ends :
      (req : Frame) (reqs : List Frame) (w : W) (ending : Ending)
      → c.node < 128
      → Ends link (settles c.node req) w req ending
      → send_each link c (req ∷ reqs) w ≡ ended link c w req ending
  unfolding send_each
  send_each-Ends req reqs w ending small h =
      let next = λ (r : Frame). send_each link c reqs in
      bind-Ends link c (answered link c (settles c.node req) 1 req) next w req ending (
        answered-Ends link c (settles c.node req) req w ending small (settled_response c.node req)
          h)

  -- A download to a 16-bit index of a node below 128 succeeds if each of its requests is
  -- acknowledged, whatever other frames the bus carries, and it leaves the world as these requests
  -- leave it.
  pub download-Acknowledged :
      (index subindex : ℕ) (bytes : List ℕ) (reqs : List Frame) (w : W)
      → c.node < 128
      → IsU16 index
      → script link c index subindex bytes ≡ ok reqs
      → Acknowledged link c.node w reqs
      → download link c index subindex bytes w ≡ (after_all link w reqs, ok tt)
  unfolding send_each
  download-Acknowledged index subindex bytes reqs w small fits made h =
      download-script link c index subindex bytes w small fits
      ∙ ap (λ (r : Result (List Frame)). run_script link c r w)
          (made ∙ ap ok (sym (append-nil reqs)))
      ∙ send_each-Acknowledged reqs [] w h

  -- If the first requests of a download to a 16-bit index of a node below 128 are acknowledged, and
  -- then the bus refuses the next, the device aborts, naming the object where the request names it,
  -- or no answer arrives, Download returns that error, with the object and the code of the abort,
  -- and sends nothing more.
  pub download-Ends :
      (index subindex : ℕ) (bytes : List ℕ) (acked reqs : List Frame) (req : Frame)
      (ending : Ending) (w : W)
      → c.node < 128
      → IsU16 index
      → script link c index subindex bytes ≡ ok (acked ++ (req ∷ reqs))
      → Acknowledged link c.node w acked
      → Ends link (settles c.node req) (after_all link w acked) req ending
      → download link c index subindex bytes w ≡ ended link c (after_all link w acked) req ending
  download-Ends index subindex bytes acked reqs req ending w small fits made h ends =
      download-script link c index subindex bytes w small fits
      ∙ ap (λ (r : Result (List Frame)). run_script link c r w) made
      ∙ send_each-Acknowledged acked (req ∷ reqs) w h
      ∙ send_each-Ends req reqs (after_all link w acked) ending small ends
