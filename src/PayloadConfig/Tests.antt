-- ===== src/PayloadConfig/Tests.antt =====
-- The defaults, and a limit of two gigabytes.
use knitting.Base.{true, ◌&&◌, ◌≡◌, refl, none, ltb}
use knitting.PayloadConfig.{
  growable, absent, floor, Options, Resolved, shr3, resolve_mode, resolve_max, resolve_initial,
  resolve_payload_buffer_options,
}
use knitting.PayloadConfig.Bounds.{Bounded, resolved-Bounded, succeeds, in_range, accepts}

abbrev no_options : Options
no_options = record {
  mode = none;
  payload_initial_bytes = absent;
  payload_max_byte_length = absent;
  max_payload_bytes = absent;
}

abbrev defaults : Resolved
defaults = record {
  mode = growable;
  payload_initial_bytes = 4194304;
  payload_max_byte_length = 67108864;
  max_payload_bytes = 8388608;
}

resolved-Bounded_example : Bounded true defaults
unfolding resolve_payload_buffer_options resolve_mode resolve_max resolve_initial
resolved-Bounded_example = resolved-Bounded true no_options none defaults refl

abbrev two_gigabytes : Options
two_gigabytes = record no_options { payload_max_byte_length = floor 2147483648 }

-- A limit of 2^31 bytes is refused as too small.
too_large : resolve_payload_buffer_options true two_gigabytes none ≡ none
unfolding resolve_payload_buffer_options resolve_mode resolve_max resolve_initial
too_large = refl

accepts_example :
    succeeds (resolve_payload_buffer_options true two_gigabytes none)
    ≡ ltb 0 (shr3 (resolve_max true two_gigabytes none))
      && in_range absent (shr3 (resolve_max true two_gigabytes none))
accepts_example = accepts true two_gigabytes none
