-- ===== src/Crawler.antt =====
-- The crawler (internal/crawler): its safety guard, the request interceptor and the drivers.
pub mod Ip
pub mod Guard
pub mod Intercept
pub mod Drive
pub mod Crawl
pub mod Collector
