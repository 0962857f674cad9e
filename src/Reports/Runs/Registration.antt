-- ===== src/Reports/Runs/Registration.antt =====
-- The statistics of registration/registration-quickest, its js/stats.js.
use graffi_tab_backend.Prelude.Text.{codes}
use graffi_tab_backend.Reports.{Header, Item, group, request, nil, cons, counts, group_of}

-- Global Information
abbrev pub registration_global_information : Header
registration_global_information = record {
  name = codes "Global Information";
  path = codes "";
  path_formatted = codes "group_missing-name-b06d1";
  stats = record {
    name = codes "Global Information";
    number_of_requests = counts "150" "150" "0";
    min_response_time = counts "167" "167" "-";
    max_response_time = counts "584" "584" "-";
    mean_response_time = counts "255" "255" "-";
    standard_deviation = counts "93" "93" "-";
    percentiles1 = counts "204" "204" "-";
    percentiles2 = counts "330" "330" "-";
    percentiles3 = counts "428" "428" "-";
    percentiles4 = counts "548" "548" "-";
    group1 = group_of "t < 800 ms" 150 100;
    group2 = group_of "800 ms < t < 1200 ms" 0 0;
    group3 = group_of "t > 1200 ms" 0 0;
    group4 = group_of "failed" 0 0;
    mean_number_of_requests_per_second = counts "4.839" "4.839" "-";
  };
}

-- Sign up
abbrev pub registration_sign_up : Header
registration_sign_up = record {
  name = codes "Sign up";
  path = codes "Sign up";
  path_formatted = codes "req_sign-up-d9776";
  stats = record {
    name = codes "Sign up";
    number_of_requests = counts "150" "150" "0";
    min_response_time = counts "167" "167" "-";
    max_response_time = counts "584" "584" "-";
    mean_response_time = counts "255" "255" "-";
    standard_deviation = counts "93" "93" "-";
    percentiles1 = counts "204" "204" "-";
    percentiles2 = counts "330" "330" "-";
    percentiles3 = counts "428" "428" "-";
    percentiles4 = counts "548" "548" "-";
    group1 = group_of "t < 800 ms" 150 100;
    group2 = group_of "800 ms < t < 1200 ms" 0 0;
    group3 = group_of "t > 1200 ms" 0 0;
    group4 = group_of "failed" 0 0;
    mean_number_of_requests_per_second = counts "4.839" "4.839" "-";
  };
}

-- `stats`: the whole tree.
abbrev pub registration_stats : Item
registration_stats = group registration_global_information (cons (request registration_sign_up) nil)
