-- ===== src/NativeFilter/Tests.antt =====
-- The filter of benchmarks/common_benchmark/bench_bpf.cpp at a frame that it accepts, and at the
-- null pointer.
use bpf_program.Base.{◌≡◌, ◌↔◌, refl, arith, true, false, some, none, not, ◌&&◌, ◌==◌, []}
use bpf_program.Bytes.{of_be, little_endian}
use bpf_program.Buffer.{bytes_from}
use bpf_program.Filter.{iec61850_filter}
use bpf_program.Filter.Shapes.{bytes}
use bpf_program.Filter.Tests.{
  list_load, list_load-IsLoad, layout, layout-IsEthernet, settings, dst, src, kind, start, sample,
  sample-IsSample, single,
}
use bpf_program.NativeFilter.{native_filter, by_type, by_size, same_name, compare_name}
use bpf_program.NativeFilter.Frames.{iec61850_filter-native_filter}

accepted_run : native_filter little_endian (some (bytes single)) 126 ≡ some true
unfolding native_filter by_type by_size same_name compare_name bytes_from
accepted_run = refl

null_run : native_filter little_endian none 126 ≡ some false
unfolding native_filter
null_run = refl

iec61850_filter-native_filter_example :
    (iec61850_filter list_load layout settings (bytes single) ≡ some true) ↔ (
      (native_filter little_endian (some (bytes single)) 126 ≡ some true)
      × ((not (settings.iface_mac == of_be src) && settings.src_mac == of_be src) ≡ true))
iec61850_filter-native_filter_example =
    iec61850_filter-native_filter list_load-IsLoad layout-IsEthernet settings dst src kind start
      sample [] 126 refl (record { dst = refl; src = refl; kind = refl; start = refl })
      sample-IsSample (omega arith) (omega arith) refl
