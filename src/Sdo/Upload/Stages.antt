-- ===== src/Sdo/Upload/Stages.antt =====
-- How far an upload has come when a request of it is not answered as it should be.
use canbus.Prelude.{ℕ, ◌<◌, ◌≡◌, Bool, false, List, length, ok}
use canbus.Frame.{Frame}
use canbus.Sdo.Expedited.{sdo_expedited_upload_request}
use canbus.Sdo.Segmented.{upload_segment_request}
use canbus.Sdo.Client.{Client, Link}
use canbus.Sdo.Exchange.Response.{after}
use canbus.Sdo.Exchange.Ending.{SettledBy, Ending, Ends, ended}
use canbus.Sdo.Upload.{upload}
use canbus.Sdo.Upload.Chunks.{object_settles, segment_settles, Serves, after_segments, next_toggle}
use canbus.Sdo.Upload.Served.{Announces, upload_segments-Ends}
use canbus.Sdo.Upload.Immediate.{upload_request-Ends}

-- The first request is out, or an announcement and some segments before the last were read.
pub data Stage : Type 0 where
  requesting : Stage
  reading : Frame → List (List ℕ) → Stage

module _ {W : Type 0} (link : Link W) (c : Client) (fuel index subindex : ℕ) (req : Frame) where
  -- That the upload comes to the stage, from the world `w` on.
  abbrev pub Reaches : W → Stage → Type 0
  Reaches w requesting = Unit {0}
  Reaches w (reading first chunks) =
      (c.lenient_upload_expedited_only ≡ false)
      × (length chunks < fuel)
      × SettledBy link (object_settles c.node index subindex) w req first
      × ((size : ℕ) × Announces index subindex size first)
      × Serves link c.node (after link w req) 0 chunks

  -- The world and the request at the stage, and what can answer it.
  abbrev pub world_at : W → Stage → W
  world_at w requesting = w
  world_at w (reading first chunks) = after_segments link c.node (after link w req) 0 chunks

  abbrev pub request_at : Stage → Frame
  request_at requesting = req
  request_at (reading first chunks) = upload_segment_request c.node (next_toggle 0 chunks)

  abbrev pub settles_at : Stage → Frame → Bool
  settles_at requesting = object_settles c.node index subindex
  settles_at (reading first chunks) = segment_settles c.node (next_toggle 0 chunks)

  -- At whatever stage of an upload from a node below 128 the bus refuses a request, the device
  -- answers it by an abort, which for the first request must name the object, or no answer arrives,
  -- the upload returns that error, with the object and the code of an abort, and sends nothing
  -- more. Behind the first request the client is taken not to be lenient, and the fuel to be
  -- greater than the number of the segments read.
  pub upload-Ends :
      (stage : Stage) (ending : Ending) (w : W)
      → c.node < 128
      → sdo_expedited_upload_request c.node index subindex ≡ ok req
      → Reaches w stage
      → Ends link (settles_at stage) (world_at w stage) (request_at stage) ending
      → upload link c fuel index subindex w
        ≡ ended link c (world_at w stage) (request_at stage) ending
  upload-Ends requesting ending w small made reached ends =
      upload_request-Ends link c fuel index subindex req ending w small made ends
  upload-Ends (reading first chunks) ending w small made
        (strict, enough, settled, (size, announced), h) ends =
      upload_segments-Ends link c fuel index subindex size chunks req first ending w small strict
        enough made settled announced h ends
