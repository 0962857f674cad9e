-- ===== src/Reports/Runs/LoadHomeMean.antt =====
-- The statistics of loadapphome/loadapphome-mean, its js/stats.js.
use graffi_tab_backend.Prelude.Text.{codes}
use graffi_tab_backend.Reports.{Header, Item, group, request, nil, cons, counts, group_of}

-- Global Information
abbrev pub load_home_mean_global_information : Header
load_home_mean_global_information = record {
  name = codes "Global Information";
  path = codes "";
  path_formatted = codes "group_missing-name-b06d1";
  stats = record {
    name = codes "Global Information";
    number_of_requests = counts "1050" "1050" "0";
    min_response_time = counts "22" "22" "-";
    max_response_time = counts "1348" "1348" "-";
    mean_response_time = counts "109" "109" "-";
    standard_deviation = counts "181" "181" "-";
    percentiles1 = counts "43" "43" "-";
    percentiles2 = counts "68" "68" "-";
    percentiles3 = counts "543" "543" "-";
    percentiles4 = counts "909" "909" "-";
    group1 = group_of "t < 800 ms" 1029 98;
    group2 = group_of "800 ms < t < 1200 ms" 20 2;
    group3 = group_of "t > 1200 ms" 1 0;
    group4 = group_of "failed" 0 0;
    mean_number_of_requests_per_second = counts "31.818" "31.818" "-";
  };
}

-- Login
abbrev pub load_home_mean_login : Header
load_home_mean_login = record {
  name = codes "Login";
  path = codes "Login";
  path_formatted = codes "req_login-99dea";
  stats = record {
    name = codes "Login";
    number_of_requests = counts "150" "150" "0";
    min_response_time = counts "187" "187" "-";
    max_response_time = counts "1348" "1348" "-";
    mean_response_time = counts "474" "474" "-";
    standard_deviation = counts "261" "261" "-";
    percentiles1 = counts "411" "411" "-";
    percentiles2 = counts "676" "676" "-";
    percentiles3 = counts "947" "947" "-";
    percentiles4 = counts "1144" "1144" "-";
    group1 = group_of "t < 800 ms" 129 86;
    group2 = group_of "800 ms < t < 1200 ms" 20 13;
    group3 = group_of "t > 1200 ms" 1 1;
    group4 = group_of "failed" 0 0;
    mean_number_of_requests_per_second = counts "4.545" "4.545" "-";
  };
}

-- Me
abbrev pub load_home_mean_me : Header
load_home_mean_me = record {
  name = codes "Me";
  path = codes "Me";
  path_formatted = codes "req_me-318b2";
  stats = record {
    name = codes "Me";
    number_of_requests = counts "150" "150" "0";
    min_response_time = counts "22" "22" "-";
    max_response_time = counts "188" "188" "-";
    mean_response_time = counts "42" "42" "-";
    standard_deviation = counts "21" "21" "-";
    percentiles1 = counts "36" "36" "-";
    percentiles2 = counts "44" "44" "-";
    percentiles3 = counts "80" "80" "-";
    percentiles4 = counts "135" "135" "-";
    group1 = group_of "t < 800 ms" 150 100;
    group2 = group_of "800 ms < t < 1200 ms" 0 0;
    group3 = group_of "t > 1200 ms" 0 0;
    group4 = group_of "failed" 0 0;
    mean_number_of_requests_per_second = counts "4.545" "4.545" "-";
  };
}

-- Unread notifications
abbrev pub load_home_mean_unread_notifications : Header
load_home_mean_unread_notifications = record {
  name = codes "Unread notifications";
  path = codes "Unread notifications";
  path_formatted = codes "req_unread-notifica-b7ea6";
  stats = record {
    name = codes "Unread notifications";
    number_of_requests = counts "150" "150" "0";
    min_response_time = counts "23" "23" "-";
    max_response_time = counts "204" "204" "-";
    mean_response_time = counts "48" "48" "-";
    standard_deviation = counts "25" "25" "-";
    percentiles1 = counts "41" "41" "-";
    percentiles2 = counts "53" "53" "-";
    percentiles3 = counts "97" "97" "-";
    percentiles4 = counts "137" "137" "-";
    group1 = group_of "t < 800 ms" 150 100;
    group2 = group_of "800 ms < t < 1200 ms" 0 0;
    group3 = group_of "t > 1200 ms" 0 0;
    group4 = group_of "failed" 0 0;
    mean_number_of_requests_per_second = counts "4.545" "4.545" "-";
  };
}

-- Get My Feed
abbrev pub load_home_mean_get_my_feed : Header
load_home_mean_get_my_feed = record {
  name = codes "Get My Feed";
  path = codes "Get My Feed";
  path_formatted = codes "req_get-my-feed-bc43b";
  stats = record {
    name = codes "Get My Feed";
    number_of_requests = counts "150" "150" "0";
    min_response_time = counts "24" "24" "-";
    max_response_time = counts "263" "263" "-";
    mean_response_time = counts "52" "52" "-";
    standard_deviation = counts "37" "37" "-";
    percentiles1 = counts "38" "38" "-";
    percentiles2 = counts "59" "59" "-";
    percentiles3 = counts "126" "126" "-";
    percentiles4 = counts "205" "205" "-";
    group1 = group_of "t < 800 ms" 150 100;
    group2 = group_of "800 ms < t < 1200 ms" 0 0;
    group3 = group_of "t > 1200 ms" 0 0;
    group4 = group_of "failed" 0 0;
    mean_number_of_requests_per_second = counts "4.545" "4.545" "-";
  };
}

-- Notifications
abbrev pub load_home_mean_notifications : Header
load_home_mean_notifications = record {
  name = codes "Notifications";
  path = codes "Notifications";
  path_formatted = codes "req_notifications-a274f";
  stats = record {
    name = codes "Notifications";
    number_of_requests = counts "150" "150" "0";
    min_response_time = counts "28" "28" "-";
    max_response_time = counts "239" "239" "-";
    mean_response_time = counts "50" "50" "-";
    standard_deviation = counts "33" "33" "-";
    percentiles1 = counts "40" "40" "-";
    percentiles2 = counts "55" "55" "-";
    percentiles3 = counts "101" "101" "-";
    percentiles4 = counts "222" "222" "-";
    group1 = group_of "t < 800 ms" 150 100;
    group2 = group_of "800 ms < t < 1200 ms" 0 0;
    group3 = group_of "t > 1200 ms" 0 0;
    group4 = group_of "failed" 0 0;
    mean_number_of_requests_per_second = counts "4.545" "4.545" "-";
  };
}

-- Trending
abbrev pub load_home_mean_trending : Header
load_home_mean_trending = record {
  name = codes "Trending";
  path = codes "Trending";
  path_formatted = codes "req_trending-37528";
  stats = record {
    name = codes "Trending";
    number_of_requests = counts "150" "150" "0";
    min_response_time = counts "23" "23" "-";
    max_response_time = counts "193" "193" "-";
    mean_response_time = counts "45" "45" "-";
    standard_deviation = counts "25" "25" "-";
    percentiles1 = counts "39" "39" "-";
    percentiles2 = counts "49" "49" "-";
    percentiles3 = counts "92" "92" "-";
    percentiles4 = counts "156" "156" "-";
    group1 = group_of "t < 800 ms" 150 100;
    group2 = group_of "800 ms < t < 1200 ms" 0 0;
    group3 = group_of "t > 1200 ms" 0 0;
    group4 = group_of "failed" 0 0;
    mean_number_of_requests_per_second = counts "4.545" "4.545" "-";
  };
}

-- Newest streamables
abbrev pub load_home_mean_newest_streamables : Header
load_home_mean_newest_streamables = record {
  name = codes "Newest streamables";
  path = codes "Newest streamables";
  path_formatted = codes "req_newest-streamab-a8098";
  stats = record {
    name = codes "Newest streamables";
    number_of_requests = counts "150" "150" "0";
    min_response_time = counts "22" "22" "-";
    max_response_time = counts "244" "244" "-";
    mean_response_time = counts "49" "49" "-";
    standard_deviation = counts "34" "34" "-";
    percentiles1 = counts "42" "42" "-";
    percentiles2 = counts "53" "53" "-";
    percentiles3 = counts "94" "94" "-";
    percentiles4 = counts "230" "230" "-";
    group1 = group_of "t < 800 ms" 150 100;
    group2 = group_of "800 ms < t < 1200 ms" 0 0;
    group3 = group_of "t > 1200 ms" 0 0;
    group4 = group_of "failed" 0 0;
    mean_number_of_requests_per_second = counts "4.545" "4.545" "-";
  };
}

-- `stats`: the whole tree.
abbrev pub load_home_mean_stats : Item
load_home_mean_stats = group load_home_mean_global_information (
    cons (request load_home_mean_login) (
      cons (request load_home_mean_me) (
        cons (request load_home_mean_unread_notifications) (
          cons (request load_home_mean_get_my_feed) (
            cons (request load_home_mean_notifications) (
              cons (request load_home_mean_trending)
                (cons (request load_home_mean_newest_streamables) nil)))))))
