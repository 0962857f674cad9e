-- ===== src/Reports/Runs/LoadHomeQuickest.antt =====
-- The statistics of loadapphome/loadapphome-quickest, its js/stats.js.
use graffi_tab_backend.Prelude.Text.{codes}
use graffi_tab_backend.Reports.{Header, Item, group, request, nil, cons, counts, group_of}

-- Global Information
abbrev pub load_home_quickest_global_information : Header
load_home_quickest_global_information = record {
  name = codes "Global Information";
  path = codes "";
  path_formatted = codes "group_missing-name-b06d1";
  stats = record {
    name = codes "Global Information";
    number_of_requests = counts "1050" "1050" "0";
    min_response_time = counts "19" "19" "-";
    max_response_time = counts "1208" "1208" "-";
    mean_response_time = counts "86" "86" "-";
    standard_deviation = counts "156" "156" "-";
    percentiles1 = counts "33" "33" "-";
    percentiles2 = counts "54" "54" "-";
    percentiles3 = counts "361" "361" "-";
    percentiles4 = counts "953" "953" "-";
    group1 = group_of "t < 800 ms" 1032 98;
    group2 = group_of "800 ms < t < 1200 ms" 17 2;
    group3 = group_of "t > 1200 ms" 1 0;
    group4 = group_of "failed" 0 0;
    mean_number_of_requests_per_second = counts "31.818" "31.818" "-";
  };
}

-- Login
abbrev pub load_home_quickest_login : Header
load_home_quickest_login = record {
  name = codes "Login";
  path = codes "Login";
  path_formatted = codes "req_login-99dea";
  stats = record {
    name = codes "Login";
    number_of_requests = counts "150" "150" "0";
    min_response_time = counts "178" "178" "-";
    max_response_time = counts "1208" "1208" "-";
    mean_response_time = counts "382" "382" "-";
    standard_deviation = counts "259" "259" "-";
    percentiles1 = counts "237" "237" "-";
    percentiles2 = counts "477" "477" "-";
    percentiles3 = counts "985" "985" "-";
    percentiles4 = counts "1130" "1130" "-";
    group1 = group_of "t < 800 ms" 132 88;
    group2 = group_of "800 ms < t < 1200 ms" 17 11;
    group3 = group_of "t > 1200 ms" 1 1;
    group4 = group_of "failed" 0 0;
    mean_number_of_requests_per_second = counts "4.545" "4.545" "-";
  };
}

-- Me
abbrev pub load_home_quickest_me : Header
load_home_quickest_me = record {
  name = codes "Me";
  path = codes "Me";
  path_formatted = codes "req_me-318b2";
  stats = record {
    name = codes "Me";
    number_of_requests = counts "150" "150" "0";
    min_response_time = counts "19" "19" "-";
    max_response_time = counts "90" "90" "-";
    mean_response_time = counts "33" "33" "-";
    standard_deviation = counts "11" "11" "-";
    percentiles1 = counts "30" "30" "-";
    percentiles2 = counts "38" "38" "-";
    percentiles3 = counts "54" "54" "-";
    percentiles4 = counts "75" "75" "-";
    group1 = group_of "t < 800 ms" 150 100;
    group2 = group_of "800 ms < t < 1200 ms" 0 0;
    group3 = group_of "t > 1200 ms" 0 0;
    group4 = group_of "failed" 0 0;
    mean_number_of_requests_per_second = counts "4.545" "4.545" "-";
  };
}

-- Unread notifications
abbrev pub load_home_quickest_unread_notifications : Header
load_home_quickest_unread_notifications = record {
  name = codes "Unread notifications";
  path = codes "Unread notifications";
  path_formatted = codes "req_unread-notifica-b7ea6";
  stats = record {
    name = codes "Unread notifications";
    number_of_requests = counts "150" "150" "0";
    min_response_time = counts "21" "21" "-";
    max_response_time = counts "107" "107" "-";
    mean_response_time = counts "34" "34" "-";
    standard_deviation = counts "13" "13" "-";
    percentiles1 = counts "30" "30" "-";
    percentiles2 = counts "38" "38" "-";
    percentiles3 = counts "62" "62" "-";
    percentiles4 = counts "72" "72" "-";
    group1 = group_of "t < 800 ms" 150 100;
    group2 = group_of "800 ms < t < 1200 ms" 0 0;
    group3 = group_of "t > 1200 ms" 0 0;
    group4 = group_of "failed" 0 0;
    mean_number_of_requests_per_second = counts "4.545" "4.545" "-";
  };
}

-- Get My Feed
abbrev pub load_home_quickest_get_my_feed : Header
load_home_quickest_get_my_feed = record {
  name = codes "Get My Feed";
  path = codes "Get My Feed";
  path_formatted = codes "req_get-my-feed-bc43b";
  stats = record {
    name = codes "Get My Feed";
    number_of_requests = counts "150" "150" "0";
    min_response_time = counts "22" "22" "-";
    max_response_time = counts "108" "108" "-";
    mean_response_time = counts "39" "39" "-";
    standard_deviation = counts "18" "18" "-";
    percentiles1 = counts "31" "31" "-";
    percentiles2 = counts "48" "48" "-";
    percentiles3 = counts "77" "77" "-";
    percentiles4 = counts "95" "95" "-";
    group1 = group_of "t < 800 ms" 150 100;
    group2 = group_of "800 ms < t < 1200 ms" 0 0;
    group3 = group_of "t > 1200 ms" 0 0;
    group4 = group_of "failed" 0 0;
    mean_number_of_requests_per_second = counts "4.545" "4.545" "-";
  };
}

-- Notifications
abbrev pub load_home_quickest_notifications : Header
load_home_quickest_notifications = record {
  name = codes "Notifications";
  path = codes "Notifications";
  path_formatted = codes "req_notifications-a274f";
  stats = record {
    name = codes "Notifications";
    number_of_requests = counts "150" "150" "0";
    min_response_time = counts "24" "24" "-";
    max_response_time = counts "110" "110" "-";
    mean_response_time = counts "39" "39" "-";
    standard_deviation = counts "17" "17" "-";
    percentiles1 = counts "32" "32" "-";
    percentiles2 = counts "41" "41" "-";
    percentiles3 = counts "84" "84" "-";
    percentiles4 = counts "103" "103" "-";
    group1 = group_of "t < 800 ms" 150 100;
    group2 = group_of "800 ms < t < 1200 ms" 0 0;
    group3 = group_of "t > 1200 ms" 0 0;
    group4 = group_of "failed" 0 0;
    mean_number_of_requests_per_second = counts "4.545" "4.545" "-";
  };
}

-- Trending
abbrev pub load_home_quickest_trending : Header
load_home_quickest_trending = record {
  name = codes "Trending";
  path = codes "Trending";
  path_formatted = codes "req_trending-37528";
  stats = record {
    name = codes "Trending";
    number_of_requests = counts "150" "150" "0";
    min_response_time = counts "21" "21" "-";
    max_response_time = counts "91" "91" "-";
    mean_response_time = counts "36" "36" "-";
    standard_deviation = counts "16" "16" "-";
    percentiles1 = counts "30" "30" "-";
    percentiles2 = counts "42" "42" "-";
    percentiles3 = counts "79" "79" "-";
    percentiles4 = counts "88" "88" "-";
    group1 = group_of "t < 800 ms" 150 100;
    group2 = group_of "800 ms < t < 1200 ms" 0 0;
    group3 = group_of "t > 1200 ms" 0 0;
    group4 = group_of "failed" 0 0;
    mean_number_of_requests_per_second = counts "4.545" "4.545" "-";
  };
}

-- Newest streamables
abbrev pub load_home_quickest_newest_streamables : Header
load_home_quickest_newest_streamables = record {
  name = codes "Newest streamables";
  path = codes "Newest streamables";
  path_formatted = codes "req_newest-streamab-a8098";
  stats = record {
    name = codes "Newest streamables";
    number_of_requests = counts "150" "150" "0";
    min_response_time = counts "22" "22" "-";
    max_response_time = counts "103" "103" "-";
    mean_response_time = counts "40" "40" "-";
    standard_deviation = counts "18" "18" "-";
    percentiles1 = counts "32" "32" "-";
    percentiles2 = counts "47" "47" "-";
    percentiles3 = counts "83" "83" "-";
    percentiles4 = counts "93" "93" "-";
    group1 = group_of "t < 800 ms" 150 100;
    group2 = group_of "800 ms < t < 1200 ms" 0 0;
    group3 = group_of "t > 1200 ms" 0 0;
    group4 = group_of "failed" 0 0;
    mean_number_of_requests_per_second = counts "4.545" "4.545" "-";
  };
}

-- `stats`: the whole tree.
abbrev pub load_home_quickest_stats : Item
load_home_quickest_stats = group load_home_quickest_global_information (
    cons (request load_home_quickest_login) (
      cons (request load_home_quickest_me) (
        cons (request load_home_quickest_unread_notifications) (
          cons (request load_home_quickest_get_my_feed) (
            cons (request load_home_quickest_notifications) (
              cons (request load_home_quickest_trending)
                (cons (request load_home_quickest_newest_streamables) nil)))))))
