-- ===== src/Metric/Tests.antt =====
-- The sliced window at concrete times.
use polaris_go.Base.{◌%◌, ◌≡◌, refl, none, List, [], ◌∷◌, arith}
use polaris_go.Base.Int.{i64_mod}
use polaris_go.Metric.{
  SliceWindow, include_start, new_res_metric_array, get_metric, add_metric, calc_bucket_index,
  calc_start_time, init_bucket, get_buckets, lookup_and_create, in_range, calc_bucket_metrics,
  sum_metrics, calc_metrics,
}
use polaris_go.Metric.Laws.{Query, calc}
use polaris_go.Metric.Turn.{Entry, add_entry, add_all, log_sum}
use polaris_go.Metric.Log.{calc-add_all}

-- Ten buckets of one second, and the two dimensions of the error rate.
abbrev window : SliceWindow
window = record {
  bucket_interval_milli = 1000;
  bucket_count = 10;
  metric_size = 2;
  window_start_time_milli = 0;
  last_update_time = 0;
  last_read_time = 0;
  period_start_time = 0;
  buckets = none;
}

abbrev query : Query
query = record { dimension = 0; start = 20500; end_time = 30500; kind = include_start }

abbrev first_entry : Entry
first_entry = record { time = 20700; dimension = 0; value = 1 }

abbrev entries : List Entry
entries =
    record { time = 20900; dimension = 1; value = 1 }
    ∷ record { time = 25100; dimension = 0; value = 1 }
    ∷ record { time = 29999; dimension = 0; value = 1 }
    ∷ []

-- Three requests in buckets that have ended.
three_requests : calc (add_all 20600 window (first_entry ∷ entries)) query ≡ 3
unfolding add_all add_entry lookup_and_create get_buckets init_bucket calc_bucket_index
    calc_start_time new_res_metric_array get_metric add_metric calc_metrics sum_metrics
    calc_bucket_metrics in_range
three_requests = refl

calc-add_all_example :
    calc (add_all 20600 window (first_entry ∷ entries)) query % i64_mod
    ≡ log_sum window query (first_entry ∷ entries) % i64_mod
calc-add_all_example =
    calc-add_all window 20600 query first_entry entries (omega arith) refl (omega arith)
