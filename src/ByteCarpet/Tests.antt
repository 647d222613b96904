-- ===== src/ByteCarpet/Tests.antt =====
-- The carpet on concrete sizes.
use knitting.Base.{◌≡◌, refl, [], some, arith}
use knitting.ByteCarpet.{align_bytes, Carpet, Params, interleaved, LockControl, create_lock_control}
use knitting.ByteCarpet.Packing.{Laid}
use knitting.ByteCarpet.Headers.{Control, create_lock_control-Control}

abbrev rolled : Carpet
rolled = record { align_to = 64; cursor = 100; slices = [] }

rolled-Laid : Laid 64 rolled
rolled-Laid = record { alignment = refl; packed = omega arith }

abbrev params : Params
params = record {
  signal_bytes = 12;
  abort_bytes = 40;
  sector_bytes = 256;
  stride = 144;
  count = 32;
  layout = interleaved;
  align_to = 64;
}

rounded : align_bytes 100 64 ≡ some 128
unfolding align_bytes
rounded = refl

create_lock_control_example :
    (l : LockControl) × (create_lock_control params ≡ some l) × Control params l
create_lock_control_example = create_lock_control-Control params (omega arith)
