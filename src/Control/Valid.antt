-- ===== src/Control/Valid.antt =====
-- The invariant of a client slot.
use cubicle.Base.{◌≤◌, length, ◌<◌, ◌≡◌}
use cubicle.Control.Client.{Client, response_max, request_max, reading}

-- What the functions keep of the fields of a `control_client_t`: the request has room for its
-- terminator, the response lies inside its block, and a frame that is being read fits.
pub record IsClient (c : Client) : Type 0 where
  pub request_fits : length c.request < request_max
  pub offset_fits : c.response_offset ≤ length c.response
  pub response_fits : length c.response ≤ c.response_capacity
  pub capacity_fits : c.response_capacity ≤ response_max
  pub frame_fits : c.kind ≡ reading → c.framed_length < 8188
