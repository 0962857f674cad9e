-- ===== src/Reports.antt =====
-- The reports of the load tests, gatling/user-files/results-docs: their statistics, the cells
-- of the page that shows them, and the menu of its items. Numbers that the page shows as they
-- are stand as texts.
pub mod Menu
pub mod Unpack
pub mod Runs
mod Tests
use graffi_tab_backend.Prelude.{ℕ, List, [], ◌∷◌, ◌++◌}
use graffi_tab_backend.Prelude.Text.{Text, codes}
use Prim.Native.String.{String}

-- `{ total, ok, ko }`
pub record Counts : Type 0 where
  pub total : Text
  pub ok : Text
  pub ko : Text

-- `{ name, count, percentage }`
pub record Group : Type 0 where
  pub name : Text
  pub count : ℕ
  pub percentage : ℕ

pub record Stats : Type 0 where
  pub name : Text
  pub number_of_requests : Counts
  pub min_response_time : Counts
  pub max_response_time : Counts
  pub mean_response_time : Counts
  pub standard_deviation : Counts
  pub percentiles1 : Counts
  pub percentiles2 : Counts
  pub percentiles3 : Counts
  pub percentiles4 : Counts
  pub group1 : Group
  pub group2 : Group
  pub group3 : Group
  pub group4 : Group
  pub mean_number_of_requests_per_second : Counts

-- What a group and a request have in common.
pub record Header : Type 0 where
  pub name : Text
  pub path : Text
  pub path_formatted : Text
  pub stats : Stats

mutual
  pub data Item : Type 0 where
    group : Header → Contents → Item
    request : Header → Item

  pub data Contents : Type 0 where
    nil : Contents
    cons : Item → Contents → Contents

abbrev pub counts : String → String → String → Counts
counts total ok ko = record { total = codes total; ok = codes ok; ko = codes ko }

abbrev pub group_of : String → ℕ → ℕ → Group
group_of name count percentage = record {
  name = codes name;
  count = count;
  percentage = percentage;
}

abbrev cells : String → String → String → Counts → List (Text × Text)
cells total ok ko c = (codes total, c.total) ∷ (codes ok, c.ok) ∷ (codes ko, c.ko) ∷ []

-- `fillStats`: the element ids, in order, with what is appended to each.
pub fill_stats : Stats → List (Text × Text)
fill_stats s =
    cells "numberOfRequests" "numberOfRequestsOK" "numberOfRequestsKO" s.number_of_requests
    ++ cells "minResponseTime" "minResponseTimeOK" "minResponseTimeKO" s.min_response_time
    ++ cells "maxResponseTime" "maxResponseTimeOK" "maxResponseTimeKO" s.max_response_time
    ++ cells "meanResponseTime" "meanResponseTimeOK" "meanResponseTimeKO" s.mean_response_time
    ++ cells "standardDeviation" "standardDeviationOK" "standardDeviationKO" s.standard_deviation
    ++ cells "percentiles1" "percentiles1OK" "percentiles1KO" s.percentiles1
    ++ cells "percentiles2" "percentiles2OK" "percentiles2KO" s.percentiles2
    ++ cells "percentiles3" "percentiles3OK" "percentiles3KO" s.percentiles3
    ++ cells "percentiles4" "percentiles4OK" "percentiles4KO" s.percentiles4
    ++ cells "meanNumberOfRequestsPerSecond" "meanNumberOfRequestsPerSecondOK"
        "meanNumberOfRequestsPerSecondKO" s.mean_number_of_requests_per_second
